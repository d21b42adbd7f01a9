-- ===== src/Main/Ends.antt =====
-- How a server starts, and how its game ends.
use snake_posix.Common.{
  ℕ, ◌+◌, ◌≤◌, ◌≡◌, refl, sym, ap, ◌∙◌, inl, inr, arith, Bool, true, false, not, ◌&&◌, ◌||◌, ◌==◌,
  ltb, if_intro, Bool-cases, Option, none, some, List, [], ◌∷◌,
}
use snake_posix.Common.Outcome.{ok, Returns-ok, Ensures, Ensures->>=, Ensures-mono, Ensures-both}
use snake_posix.Common.{Text}
use snake_posix.Rng.{Rng}
use snake_posix.Geometry.{Coordinates}
use snake_posix.Map.{MapTemplate, max_players, max_map_width, max_map_height}
use snake_posix.Map.Cells.{map_template_init_lem, map_init_from_template_lem}
use snake_posix.Loader.{
  Scanner, map_loader_create_empty_template, map_loader_load_template_from_file,
}
use snake_posix.Loader.Limits.{
  area, Loaded, IsMapFile, load_template-Loaded, Playable, Loaded-Playable,
}
use snake_posix.Menu.Ports.{IfAny}
use snake_posix.Menu.Allowed.{Allowed, BoardGiven}
use snake_posix.Settings.{GameSettings, setting_no_port}
use snake_posix.Server.Turn.{Server, server_tick, server_end_game}
use snake_posix.Server.Passed.{Ready, any_alive}
use snake_posix.Server.Tick.{server_tick-Ready, server_tick-replay, server_tick-result}
use snake_posix.Server.Start.{game_state_init, game_state_init-Ready}
use snake_posix.Main.{
  System, StartedServer, load_template, start_listening, opens_memory, start_game, server_init,
  Reading, Run, still_running, was_interrupted, nobody_played, main_loop, delay_between_ticks_ms,
}

-- A state that a game can go on from, with a board that is within its arrays.
abbrev pub Open : Server → Type 0
Open s = Ready s × (s.map.width ≤ max_map_width) × (s.map.height ≤ max_map_height)

-- Connections are handled exactly if there is a port.
abbrev pub Started : GameSettings → StartedServer → Type 0
Started settings h = Open h.state × (h.connection_handler ≡ not (settings.port == setting_no_port))

module _ (scanner : Scanner) (system : System scanner) where
  empty-Playable :
      (width height : ℕ)
      → BoardGiven none width height
      → Playable (map_loader_create_empty_template system.template_memory width height)
  unfolding map_loader_create_empty_template
  empty-Playable width height ((w, w'), (h, h')) =
      let (_, e, f) =
        map_template_init_lem system.template_memory width height
          (record { row = 0; column = 0 }) in
      (
        record {
          tall = omega (arith, f);
          wide = omega (arith, e);
          height_fits = omega (arith, f);
          width_fits = omega (arith, e);
          area_fits = rw (e, f) (area width height w' h');
        },
        omega (arith, e),
        omega (arith, f),
      )

  from_file-Playable :
      (file : Option scanner.File)
      → IsMapFile scanner file
      → Ensures
          (map_loader_load_template_from_file scanner system.template_memory file)
          (IfAny Playable)
  unfolding map_loader_load_template_from_file
  from_file-Playable none h = tt
  from_file-Playable (some file) (width, height, cells, h) =
      let (o, loads, loaded) =
        Returns-ok (map_loader_load_template_from_file scanner system.template_memory (some file)) _
          (load_template-Loaded system.template_memory width height cells file h) in
      rw (loads, Ensures) (any width height cells o loaded)
    where
      any :
          (width height : ℕ) (cells : ℕ → ℕ → ℕ) (o : Option MapTemplate)
          → Loaded width height cells o
          → IfAny Playable o
      any width height cells none h = tt
      any width height cells (some t) h = Loaded-Playable width height cells t h

  load_template-Playable :
      (settings : GameSettings)
      → ((path : Text) → settings.map_path ≡ some path → IsMapFile scanner (system.fopen path))
      → BoardGiven settings.map_path settings.width settings.height
      → Ensures (load_template scanner system settings) (IfAny Playable)
  unfolding load_template
  load_template-Playable settings files given_ = go settings.map_path files given_
    where
      go :
          (path : Option Text)
          → ((p : Text) → path ≡ some p → IsMapFile scanner (system.fopen p))
          → BoardGiven path settings.width settings.height
          → Ensures
              (load_template scanner system (record settings { map_path = path }))
              (IfAny Playable)
      go none files given_ = empty-Playable settings.width settings.height given_
      go (some path) files given_ = from_file-Playable (system.fopen path) (files path refl)

  start_listening-Started :
      (settings : GameSettings) (state : Server)
      → Open state
      → IfAny (Started settings) (start_listening scanner system settings state)
  unfolding start_listening
  start_listening-Started settings state ready =
      if_intro (IfAny (Started settings)) (settings.port == setting_no_port) _ _
        (λ e. (ready, sym (ap not e)))
        (λ e.
          if_intro (IfAny (Started settings)) (system.socket_init_listen settings.port) _ none
            (λ e'. (ready, sym (ap not e))) (λ e'. tt))

  game_state_init-Open :
      (memory : Server) (t : MapTemplate) → Playable t → Open (game_state_init memory t)
  unfolding game_state_init
  game_state_init-Open memory t (good, w, h) =
      let (_, e, f) = map_init_from_template_lem memory.map t (record { row = 0; column = 0 }) in
      (game_state_init-Ready memory t good, omega (arith, e), omega (arith, f))

  start_game-Started :
      (settings : GameSettings) (o : Option MapTemplate)
      → IfAny Playable o
      → IfAny (Started settings) (start_game scanner system settings o)
  start_game-Started settings none h = tt
  start_game-Started settings (some t) h =
      start_listening-Started settings _ (game_state_init-Open system.server_memory t h)

  -- With settings that the menu for a host allows, and where what `fopen` gives for their path, if
  -- they have one, is a file of a map, if it is any, `server_init` fails or starts a game that is
  -- ready for a tick, whose board is within the arrays of the C program, and which takes
  -- connections exactly if the settings have a port.
  pub server_init-Started :
      (settings : GameSettings)
      → ((path : Text) → settings.map_path ≡ some path → IsMapFile scanner (system.fopen path))
      → Allowed settings
      → Ensures (server_init scanner system settings) (IfAny (Started settings))
  unfolding server_init
  server_init-Started settings files allowed =
      if_intro (λ o. Ensures o (IfAny (Started settings))) (opens_memory scanner system settings) _
        (ok none)
        (λ e.
          Ensures->>= (load_template scanner system settings) _ _ _
            (load_template-Playable settings files allowed.board)
            (λ o h. start_game-Started settings o h))
        (λ e. tt)

-- What is known of the game state after some readings.
abbrev pub Ended : Run → Type 0
Ended (still_running s) = Open s
Ended (was_interrupted s) = Open s × (s.game_ended ≡ true)
Ended (nobody_played s) =
    Open s × (s.game_ended ≡ true) × (any_alive max_players s.player_manager ≡ false)

-- The clients keep a game so.
abbrev pub Harmless : List Reading → Type 0
Harmless [] = Unit
Harmless (r ∷ l) = ((s : Server) → Open s → Open (r.clients s)) × Harmless l

end-Open : (s : Server) → Open s → Open (server_end_game s)
unfolding server_end_game
end-Open s (h, w, k) =
    (record { board = h.board; bodies = h.bodies; tiles = h.tiles; clear = h.clear }, w, k)

left_false : (a b : Bool) → (a || b) ≡ false → a ≡ false
left_false a b e = ground arith

module _ (rng : Rng) where
  -- A tick keeps the size of the board.
  tick-Open : (s : Server) → Open s → Ensures (server_tick rng s) (λ r. Open r.0)
  tick-Open s (ready, wide, tall) =
      let first : Coordinates = record { row = 0; column = 0 } in
      Ensures-mono (server_tick rng s) _ _
        (Ensures-both (server_tick rng s) _ _ (server_tick-Ready rng s ready)
          (server_tick-replay rng s ready first (ready.board.tall, ready.board.wide)))
        (λ r (ready', (w, h, e)). (ready', omega (arith, w), omega (arith, h)))

  -- From a state that is ready for a tick, with a board within the arrays of the C program, and
  -- with clients that keep it so, each tick of the loop of `main` ends, or the process does by
  -- `exit`; the loop leaves the game ready for a tick, with a board within the arrays, ends with
  -- the game ended if it ends, and ends without being interrupted only after a tick that leaves no
  -- player playing or paused.
  pub main_loop-Ended :
      (waiting ticked : Bool) (last : ℕ) (self : Server) (readings : List Reading)
      → Open self
      → Harmless readings
      → Ensures (main_loop rng waiting ticked last self readings) Ended
  unfolding main_loop server_end_game
  main_loop-Ended waiting ticked last self [] ready harmless = ready
  main_loop-Ended true ticked last self (r ∷ l) ready (keep, harmless) =
      main_loop-Ended (ltb r.now (last + delay_between_ticks_ms) && not r.interrupted) ticked last
        (r.clients self) l (keep self ready) harmless
  main_loop-Ended false ticked last self (r ∷ l) ready (keep, harmless) =
      let start = keep self ready in
      elim (Bool-cases r.interrupted) [
        | inl e ↦ rw (e, main_loop) (end-Open _ start, refl)
        | inr e ↦
            rw (e, main_loop)
              (Ensures->>= (server_tick rng (r.clients self)) _ _ _
                (Ensures-both (server_tick rng (r.clients self)) _ _
                  (tick-Open (r.clients self) start)
                  (server_tick-result rng (r.clients self) start.0))
                (λ (next, running) (ready', (result, _, _)).
                  elim (Bool-cases (running || not (ticked || running))) [
                    | inl goes ↦
                        rw goes
                          (main_loop-Ended true (ticked || running) r.now next l ready' harmless)
                    | inr ends ↦
                        rw ends (end-Open next ready', refl, sym result ∙ left_false running _ ends)
                  ]))
      ]
