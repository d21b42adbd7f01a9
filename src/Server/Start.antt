-- ===== src/Server/Start.antt =====
-- `libsnake/game_state.{h,c}` and the life of a game: its first state and the steps that the server
-- and the requests of clients take from there.
use snake_posix.Common.{
  ℕ, ◌*◌, ◌^◌, ◌<◌, ◌≡◌, refl, sym, ap, ◌∙◌, subst, ◌⊎◌, inl, inr, arith, Bool, true, false, ◌||◌,
  ◌==◌, if◌then◌else◌, if_intro, ==→≡, Option, none, some,
}
use snake_posix.Common.Loops.{for_range_inv}
use snake_posix.Common.Outcome.{ok, Ensures}
use snake_posix.Rng.{Rng}
use snake_posix.Geometry.{Coordinates, Direction}
use snake_posix.Map.{Map, MapTemplate, max_players, map_init_from_template, map_template_has_wall}
use snake_posix.Map.Moves.{Inside}
use snake_posix.Map.Neighbors.{tile_at}
use snake_posix.Map.Cells.{in_size, tile_of, map_init_from_template_lem}
use snake_posix.Changelog.{changelog_init}
use snake_posix.Player.{
  Player, PlayerManager, PlayerStatus, player_not_connected, player_joining, player_playing,
  player_paused, player_dead, player_respawning, player_disconnecting, player_other, is_status,
  write_player, player_manager_init, player_manager_register, player_manager_unregister,
  player_manager_pause, player_manager_unpause, player_manager_respawn,
  player_manager_set_player_direction,
}
use snake_posix.Player.Registry.{Registered, full, placed, register-Registered, is_status→≡}
use snake_posix.Ticker.{ticker_init}
use snake_posix.Server.Turn.{Server, server_tick}
use snake_posix.Server.Invariant.{has_body, is_dead, is_player}
use snake_posix.Server.Passed.{Ready}
use snake_posix.Server.Tick.{server_tick-Ready}

-- The memory of the state is `self`.
unfoldable pub game_state_init : Server → MapTemplate → Server
game_state_init self map_template = record self {
  changelog = changelog_init self.changelog;
  map = map_init_from_template self.map map_template;
  player_manager = player_manager_init self.player_manager;
  ticker = ticker_init;
  game_ended = false;
}

-- A template with at least one cell, and with fewer than 2 ^ 31 cells.
pub record IsTemplate (t : MapTemplate) : Type 0 where
  pub tall : 0 < t.height
  pub wide : 0 < t.width
  pub height_fits : t.height < 2 ^ 32
  pub width_fits : t.width < 2 ^ 32
  pub area_fits : t.height * t.width < 2 ^ 31

abbrev Absent : PlayerManager → ℕ → Type 0
Absent m q = (m.players q).status ≡ player_not_connected

init-Absent : (m : PlayerManager) (q : ℕ) → q < max_players → Absent (player_manager_init m) q
unfolding player_manager_init
init-Absent m q l =
    for_range_inv (λ i n. (q : ℕ) → q < i → Absent n q) clear max_players 0 max_players m refl
      (λ k n l h q l'.
        if_intro (λ (x : Player). x.status ≡ player_not_connected) (q == k) _ (n.players q)
          (λ e. refl) (λ e. h q (ground arith)))
      (λ q l. absurd (omega arith)) q l
  where
    clear : ℕ → PlayerManager → PlayerManager
    clear i m = write_player m i (record (m.players i) { status = player_not_connected })

no_body : (s : PlayerStatus) → s ≡ player_not_connected → has_body s ≡ false
no_body s e = ap has_body e

plain_tile : (b : Bool) → (is_player (tile_of b) ≡ false) × (is_dead (tile_of b) ≡ false)
plain_tile true = (refl, refl)
plain_tile false = (refl, refl)

-- The first state of a game is ready for a tick, whatever its memory held, if the template has at
-- least one cell and fewer than 2 ^ 31.
pub game_state_init-Ready :
    (self : Server) (t : MapTemplate) → IsTemplate t → Ready (game_state_init self t)
unfolding game_state_init
game_state_init-Ready self t good = record {
  board =
      let (_, w, h) = map_init_from_template_lem self.map t (record { row = 0; column = 0 }) in
      record {
        fits = record {
          sizes = omega (arith, w, h, good.width_fits, good.height_fits);
          area = rw (w, h) good.area_fits;
        };
        tall = omega (arith, h, good.tall);
        wide = omega (arith, w, good.wide);
      };
  bodies = λ q l b.
      let clash : true ≡ false = sym b ∙ no_body _ (init-Absent self.player_manager q l) in cc;
  tiles =
      λ c i e. let clash : true ≡ false = sym e ∙ ap is_player (cell c i) ∙ (plain_tile _).0 in cc;
  clear = λ c i. ap is_dead (cell c i) ∙ (plain_tile _).1;
}
  where
    m : Map
    m = map_init_from_template self.map t

    cell : (c : Coordinates) → Inside m c → tile_at m c ≡ tile_of (map_template_has_wall t c)
    cell c i =
        let (e, w, h) = map_init_from_template_lem self.map t c in
        let inside : in_size t.width t.height c ≡ true = ground (arith, w, h) in
        e ∙ ap (λ b. if b then tile_of (map_template_has_wall t c) else tile_at self.map c) inside

-- The statuses of a player that has a client.
abbrev pub is_member : PlayerStatus → Bool
is_member s =
    has_body s
    || is_status s player_dead
    || is_status s player_respawning
    || is_status s player_joining

-- What can happen to a server: a tick, a client that comes, and the requests of a client of a
-- player. A client that leaves is one that came, so its player is none of those left out.
pub data Step (rng : Rng) : Server → Server → Type 0 where
  tick :
      (self next : Server) (running : Bool)
      → server_tick rng self ≡ ok (next, running)
      → Step rng self next
  register :
      (self : Server) (id : ℕ) (m : PlayerManager)
      → player_manager_register self.player_manager ≡ some (id, m)
      → Step rng self (record self { player_manager = m })
  pause :
      (self : Server) (id : ℕ)
      → Step rng self (record self { player_manager = player_manager_pause self.player_manager id })
  unpause :
      (self : Server) (id : ℕ)
      → Step rng self
          (record self { player_manager = player_manager_unpause self.player_manager id })
  respawn :
      (self : Server) (id : ℕ)
      → Step rng self
          (record self { player_manager = player_manager_respawn self.player_manager id })
  turn :
      (self : Server) (id : ℕ) (direction : Direction)
      → Step rng self (record self {
        player_manager = player_manager_set_player_direction self.player_manager id direction;
      })
  unregister :
      (self : Server) (id : ℕ)
      → is_member (self.player_manager.players id).status ≡ true
      → Step rng self
          (record self { player_manager = player_manager_unregister self.player_manager id })

-- The states that a game comes to from a first one.
pub data Reachable (rng : Rng) (first : Server) : Server → Type 0 where
  start : Reachable rng first first
  further : (s t : Server) → Reachable rng first s → Step rng s t → Reachable rng first t

-- Players without a new body keep a state ready.
requested-Ready :
    (self : Server) (m : PlayerManager)
    → Ready self
    → ((q : ℕ)
        → has_body (m.players q).status ≡ true
        → has_body (self.player_manager.players q).status ≡ true)
    → Ready (record self { player_manager = m })
requested-Ready self m r keep = record {
  board = r.board;
  bodies = λ q l b. r.bodies q l (keep q b);
  tiles = r.tiles;
  clear = r.clear;
}

write-Ready :
    (self : Server) (id : ℕ) (x : Player)
    → Ready self
    → (has_body x.status ≡ true → has_body (self.player_manager.players id).status ≡ true)
    → Ready (record self { player_manager = write_player self.player_manager id x })
write-Ready self id x r keep = requested-Ready self _ r (λ q.
    if_intro
      (λ (y : Player).
        has_body y.status ≡ true → has_body (self.player_manager.players q).status ≡ true)
      (q == id) x (self.player_manager.players q)
      (λ e b. ap (λ j. has_body (self.player_manager.players j).status) (==→≡ q id e) ∙ keep b)
      (λ e b. b))

guarded-Ready :
    (self : Server) (id : ℕ) (old new : PlayerStatus)
    → Ready self
    → has_body old ≡ true ⊎ (has_body new ≡ false)
    → Ready (record self {
      player_manager =
          if is_status (self.player_manager.players id).status old
          then write_player self.player_manager id
              (record (self.player_manager.players id) { status = new })
          else self.player_manager;
    })
guarded-Ready self id old new r h =
    if_intro (λ m. Ready (record self { player_manager = m })) _ _ self.player_manager
      (λ e.
        write-Ready self id (record (self.player_manager.players id) { status = new }) r
          (λ b. elim h [
            | inl body ↦
                ap has_body (is_status→≡ (self.player_manager.players id).status old e) ∙ body
            | inr bare ↦ let clash : true ≡ false = sym b ∙ bare in cc
          ]))
      (λ e. r)

abbrev AfterRegister : Server → Option (ℕ × PlayerManager) → Type 0
AfterRegister self none = Unit
AfterRegister self (some (id, m)) = Ready (record self { player_manager = m })

register-Ready :
    (self : Server) (o : Option (ℕ × PlayerManager))
    → Ready self
    → Registered self.player_manager o
    → AfterRegister self o
register-Ready self _ r (full h) = tt
register-Ready self _ r (placed i l free first) =
    write-Ready self i _ r (λ b. let clash : false ≡ true = b in cc)

leave-Ready :
    (s : PlayerStatus)
    → is_member s ≡ true
    → has_body (
        if is_status s player_dead || is_status s player_respawning || is_status s player_joining
        then player_not_connected
        else player_disconnecting)
      ≡ true
    → has_body s ≡ true
leave-Ready player_playing m b = refl
leave-Ready player_paused m b = refl
leave-Ready player_disconnecting m b = refl
leave-Ready player_not_connected m b = m
leave-Ready player_dead m b = b
leave-Ready player_respawning m b = b
leave-Ready player_joining m b = b
leave-Ready (player_other n) m b = absurd (ground arith)

Step-Ready : (rng : Rng) (s t : Server) → Step rng s t → Ready s → Ready t
unfolding player_manager_pause player_manager_unpause player_manager_respawn
    player_manager_set_player_direction player_manager_unregister
Step-Ready rng s _ (tick _ next running e) r =
    subst (λ o. Ensures o (λ x. Ready x.0)) e (server_tick-Ready rng s r)
Step-Ready rng s _ (register _ id m e) r =
    subst (AfterRegister s) e (register-Ready s _ r (register-Registered s.player_manager))
Step-Ready rng s _ (pause _ id) r = guarded-Ready s id player_playing player_paused r (inl refl)
Step-Ready rng s _ (unpause _ id) r = guarded-Ready s id player_paused player_playing r (inl refl)
Step-Ready rng s _ (respawn _ id) r = guarded-Ready s id player_dead player_respawning r (inr refl)
Step-Ready rng s _ (turn _ id direction) r = write-Ready s id _ r (λ b. b)
Step-Ready rng s _ (unregister _ id member) r =
    write-Ready s id _ r (leave-Ready (s.player_manager.players id).status member)

-- In a game whose first state is ready for a tick, every state that ticks, clients that come, and
-- the requests of clients lead to is ready for a tick: the cached head and tail of each player with a
-- body lie on the board, and so do those of the player of each player tile, and no tile is dead.
pub Reachable-Ready : (rng : Rng) (first s : Server) → Ready first → Reachable rng first s → Ready s
Reachable-Ready rng first _ r start = r
Reachable-Ready rng first _ r (further s t path step) =
    Step-Ready rng s t step (Reachable-Ready rng first s r path)
