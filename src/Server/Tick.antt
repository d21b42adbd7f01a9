-- ===== src/Server/Tick.antt =====
-- `server_tick` as a whole: the loop over the players, what follows it, and the result.
use snake_posix.Common.{
  ℕ, ◌≤◌, ◌<◌, ◌≡◌, refl, sym, ◌∙◌, inl, inr, arith, Bool, true, false, not, if◌then◌else◌,
  if_intro, Bool-cases,
}
use snake_posix.Rng.{Rng}
use snake_posix.Player.ForEach.{for_each_inv}
use snake_posix.Map.{max_players}
use snake_posix.Server.Turn.{
  server_tick_process_player, clear_all_dead, Server, start_data, server_tick,
}
use snake_posix.Server.Turns.{Turn, process_player-Turn}
use snake_posix.Server.Sweep.{clear_all_dead-Good, Clean, spawn_fruits-Clean}
use snake_posix.Player.{PlayerManager}
use snake_posix.Ticker.{ticker_tick}
use snake_posix.Common.Outcome.{Ensures, Ensures->>=, Ensures-mono}
use snake_posix.Geometry.{Coordinates}
use snake_posix.Map.Moves.{Inside}
use snake_posix.Map.Neighbors.{tile_at}
use snake_posix.Changelog.Replay.{entries, replay}
use snake_posix.Player.Lifecycle.{TickStep}
use snake_posix.Server.{ProcessPlayerData}
use snake_posix.Server.Invariant.{CacheInside, is_dead, Good-IsBoard, Good-Inside, Inside-Good}
use snake_posix.Server.Passed.{
  Ready, any_alive, Passed, skip-Turn, Turn-Passed, start-Passed, absent_status,
}

-- What holds of the result.
record Ticked (self : Server) (r : Server × Bool) : Type 0 where
  ready : Ready r.0
  width : r.0.map.width ≡ self.map.width
  height : r.0.map.height ≡ self.map.height
  replayed :
      (c : Coordinates)
      → Inside self.map c
      → tile_at (replay self.map (entries r.0.changelog)) c ≡ tile_at r.0.map c
  life :
      (q : ℕ)
      → q < max_players
      → TickStep (self.player_manager.players q).status (r.0.player_manager.players q).status
  rest : (q : ℕ) → max_players ≤ q → r.0.player_manager.players q ≡ self.player_manager.players q
  result : r.1 ≡ any_alive max_players r.0.player_manager
  clock : (r.0.ticker ≡ ticker_tick self.ticker) × (r.0.game_ended ≡ self.game_ended)

module _ (rng : Rng) (self : Server) (start : Ready self) where
  finish : PlayerManager → ProcessPlayerData → Server × Bool
  finish manager ctx = (
    record {
      changelog = ctx.changelog;
      map = ctx.map;
      player_manager = manager;
      ticker = ticker_tick self.ticker;
      game_ended = self.game_ended;
      player_data_cache = ctx.player_data_cache;
      seed = ctx.seed;
    },
    not ctx.no_player_alive,
  )

  module _ (m : PlayerManager) (d : ProcessPlayerData)
      (s : Passed self.map self.player_manager max_players (m, d)) where
    swept-Clean :
        Clean rng start.board m d.no_player_alive (if d.player_died then clear_all_dead d else d)
    swept-Clean =
        if_intro (Clean rng start.board m d.no_player_alive) d.player_died (clear_all_dead d) d
          (λ e.
            let (g, f, c) = clear_all_dead-Good self.map m d.no_player_alive d s.good refl in
            record { good = g; flag = f; clear = c })
          (λ e. record {
            good = s.good;
            flag = refl;
            clear = λ c i. elim (Bool-cases (is_dead (tile_at d.map c))) [
              | inl h ↦ let clash : true ≡ false = sym (s.good.dead c i h) ∙ e in cc
              | inr h ↦ h
            ];
          })

    finish-Ticked :
        (d' : ProcessPlayerData)
        → Clean rng start.board m d.no_player_alive d'
        → Ticked self (finish m d')
    unfolding finish
    finish-Ticked d' c = record {
      ready = record {
        board = Good-IsBoard c.good start.board;
        bodies = λ q l b. moved q (c.good.bodies q l b);
        tiles = λ p i e. moved _ (c.good.tiles p (Inside-Good c.good p i) e);
        clear = λ p i. c.clear p (Inside-Good c.good p i);
      };
      width = c.good.width;
      height = c.good.height;
      replayed = λ p i. elim (c.good.synced p i) [
        | inl e ↦ e
        | inr e ↦ let clash : true ≡ false = sym e ∙ c.clear p i in cc
      ];
      life = s.life;
      rest = s.rest;
      result = rw (c.flag) (ground (arith, s.flag));
      clock = (refl, refl);
    }
      where
        moved :
            (q : ℕ)
            → CacheInside self.map d'.player_data_cache q
            → CacheInside d'.map d'.player_data_cache q
        moved q h = (Good-Inside c.good _ h.0, Good-Inside c.good _ h.1)

  tick-Ticked : Ensures (server_tick rng self) (Ticked self)
  unfolding server_tick finish
  tick-Ticked =
      Ensures->>= _ _ (Passed self.map self.player_manager max_players) (Ticked self)
        (for_each_inv (server_tick_process_player rng) (Passed self.map self.player_manager)
          self.player_manager (start_data self)
          (λ k m d l s.
            Ensures-mono _ (Turn self.map m d k) _
              (if_intro (λ o. Ensures o (Turn self.map m d k)) _ _ _
                (λ e. process_player-Turn rng start.board s.good k l)
                (λ e. skip-Turn self.player_manager k m d (absent_status _ e) s.good))
              (λ r t. Turn-Passed self.player_manager k m d r s t))
          (start-Passed self start))
        (λ r s.
          Ensures->>= _ _ (Clean rng start.board r.0 r.1.no_player_alive) (Ticked self)
            (spawn_fruits-Clean rng start.board r.0 r.1.no_player_alive _ _ (swept-Clean r.0 r.1 s))
            (λ d' c. finish-Ticked r.0 r.1 s d' c))

-- From a state that is ready for a tick, a tick ends in such a state, or by `exit`: no loop, search or
-- flood goes on for ever, and no variable is read that was never set. That an index is within an array
-- is said of the board's size alone, not of the arrays of the C program.
pub server_tick-Ready :
    (rng : Rng) (self : Server) → Ready self → Ensures (server_tick rng self) (λ r. Ready r.0)
server_tick-Ready rng self s =
    Ensures-mono _ (Ticked self) _ (tick-Ticked rng self s) (λ r t. t.ready)

-- A client that has the board from before the tick and applies the changelog of the tick to it has,
-- at every cell of the board, the tile of the board after the tick, whose size is the same. The tick
-- starts from a state that is ready for one, and does not end by `exit`.
pub server_tick-replay :
    (rng : Rng) (self : Server)
    → Ready self
    → (c : Coordinates) → Inside self.map c
    → Ensures (server_tick rng self) (λ r.
      (r.0.map.width ≡ self.map.width)
      × (r.0.map.height ≡ self.map.height)
      × (tile_at (replay self.map (entries r.0.changelog)) c ≡ tile_at r.0.map c))
server_tick-replay rng self s c i =
    Ensures-mono _ (Ticked self) _ (tick-Ticked rng self s)
      (λ r t. (t.width, t.height, t.replayed c i))

-- In a tick from a state that is ready for one, the status of each player takes one step of its
-- life, unless the tick ends by `exit`.
pub server_tick-TickStep :
    (rng : Rng) (self : Server)
    → Ready self
    → (q : ℕ) → q < max_players
    → Ensures
        (server_tick rng self)
        (λ r. TickStep (self.player_manager.players q).status (r.0.player_manager.players q).status)
server_tick-TickStep rng self s q l =
    Ensures-mono _ (Ticked self) _ (tick-Ticked rng self s) (λ r t. t.life q l)

-- The result of a tick is true exactly if one of the players plays or is paused after it. The
-- ticker has ticked once, and the game has ended only if it had before. The tick starts from a state
-- that is ready for one, and does not end by `exit`.
pub server_tick-result :
    (rng : Rng) (self : Server)
    → Ready self
    → Ensures (server_tick rng self) (λ r.
      (r.1 ≡ any_alive max_players r.0.player_manager)
      × (r.0.ticker ≡ ticker_tick self.ticker)
      × (r.0.game_ended ≡ self.game_ended))
server_tick-result rng self s =
    Ensures-mono _ (Ticked self) _ (tick-Ticked rng self s)
      (λ r t. (t.result, t.clock.0, t.clock.1))
