-- ===== src/Main.antt =====
-- `server/main.c`, and `server_init` of `server/server.c`: a server from its settings to the end of its
-- game. Whether the shared memory and the socket can be opened is a parameter, as is what the clients
-- do between two readings of the clock.
pub mod Ends
use package.snake_posix.Common.{
  ℕ, zero, suc, ◌+◌, ◌-◌, ◌*◌, ◌/◌, ◌%◌, ◌^◌, ◌≤◌, ◌<◌, ◌≡◌, refl, sym, ap, ◌∙◌, subst, ◌≢◌, ◌↔◌,
  ◌⊎◌, inl, inr, arith, Bool, true, false, not, ◌&&◌, ◌||◌, ◌==◌, ltb, leb, if◌then◌else◌, if_intro,
  Bool-cases, ==-refl, ==→≡, ==→≢, Option, none, some, Option-cases, List, [], ◌∷◌, ◌++◌,
}
use package.snake_posix.Common.{Text}
use package.snake_posix.Common.Outcome.{Outcome, ok, ◌>>=◌}
use package.snake_posix.Rng.{Rng}
use package.snake_posix.Map.{MapTemplate}
use package.snake_posix.Loader.{
  Scanner, map_loader_create_empty_template, map_loader_load_template_from_file,
}
use package.snake_posix.Settings.{GameSettings, setting_no_port}
use package.snake_posix.Server.Turn.{Server, server_tick, server_end_game}
use package.snake_posix.Server.Start.{game_state_init}

abbrev pub delay_between_ticks_ms : ℕ
delay_between_ticks_ms = 350

-- The system that a server starts on: what it can open, and what fresh memory holds.
pub record System (scanner : Scanner) : Type 0 where
  pub shm_game_state_init : Text → Bool
  pub socket_init_listen : ℕ → Bool
  pub fopen : Text → Option scanner.File
  pub server_memory : Server
  pub template_memory : MapTemplate

-- What `server_init` sets: the game state, whether that is shared, and whether connections are
-- handled.
pub record StartedServer : Type 0 where
  pub state : Server
  pub shared : Bool
  pub connection_handler : Bool

module _ (scanner : Scanner) (system : System scanner) where
  unfoldable pub load_template : GameSettings → Outcome (Option MapTemplate)
  load_template settings = elim settings.map_path [
    | some path ↦
        map_loader_load_template_from_file scanner system.template_memory (system.fopen path)
    | none ↦ ok (
        some
          (map_loader_create_empty_template system.template_memory settings.width settings.height))
  ]

  -- The part of `server_init` after the game state.
  unfoldable pub start_listening : GameSettings → Server → Option StartedServer
  start_listening settings state =
      let shared : Bool = elim settings.room_name [ none ↦ false | some name ↦ true ] in
      if settings.port == setting_no_port
      then some (record { state = state; shared = shared; connection_handler = false })
      else (if system.socket_init_listen settings.port
          then some (record { state = state; shared = shared; connection_handler = true })
          else none)

  -- The memory of the game state is there, shared or not.
  unfoldable pub opens_memory : GameSettings → Bool
  opens_memory settings = elim settings.room_name [
    | none ↦ true
    | some name ↦ system.shm_game_state_init name
  ]

  -- The game from a template, if there is one.
  abbrev pub start_game : GameSettings → Option MapTemplate → Option StartedServer
  start_game settings none = none
  start_game settings (some template) =
      start_listening settings (game_state_init system.server_memory template)

  unfoldable pub server_init : GameSettings → Outcome (Option StartedServer)
  server_init settings =
      if opens_memory settings
      then load_template settings >>= (λ template. ok (start_game settings template))
      else ok none

-- A reading of the clock, in milliseconds, with the flag that a signal sets and what the clients have
-- done to the game state since the last.
pub record Reading : Type 0 where
  pub now : ℕ
  pub interrupted : Bool
  pub clients : Server → Server

-- `get_current_time_in_ms`
unfoldable pub get_current_time_in_ms : (seconds microseconds : ℕ) → ℕ
get_current_time_in_ms seconds microseconds = seconds * 1000 + microseconds / 1000

-- Where `main` is after some readings: in its loop, or past the end of the game, because it was
-- interrupted or because nobody played.
pub data Run : Type 0 where
  still_running was_interrupted nobody_played : Server → Run

module _ (rng : Rng) where
  -- The loops of `main` over readings, up to `server_end_game`. `waiting` says whether the next reading
  -- is for the test of the inner loop.
  unfoldable pub main_loop :
      (waiting game_ticked_at_least_once : Bool) (last_tick : ℕ)
      → Server
      → List Reading
      → Outcome Run
  main_loop waiting ticked last_tick self [] = ok (still_running self)
  main_loop true ticked last_tick self (reading ∷ readings) =
      let waits = ltb reading.now (last_tick + delay_between_ticks_ms) && not reading.interrupted in
      main_loop waits ticked last_tick (reading.clients self) readings
  main_loop false ticked last_tick self (reading ∷ readings) = elim reading.interrupted [
    | true ↦ ok (was_interrupted (server_end_game (reading.clients self)))
    | false ↦ server_tick rng (reading.clients self) >>= (λ (next, game_running).
        elim (game_running || not (ticked || game_running)) [
          | true ↦ main_loop true (ticked || game_running) reading.now next readings
          | false ↦ ok (nobody_played (server_end_game next))
        ])
  ]
