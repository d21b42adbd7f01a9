-- ===== src/Server/Passed.antt =====
-- The state between two ticks, and the loop of `server_tick` over the players.
use snake_posix.Common.{
  ℕ, zero, suc, ◌+◌, ◌≤◌, ◌<◌, ◌≡◌, refl, sym, ◌∙◌, subst, inl, inr, arith, Bool, true, false, not,
  ◌||◌, ◌==◌, Bool-cases, ==→≡, ==→≢,
}
use native.Mathlib.Numerals.{add-one}
use snake_posix.Map.{Map, max_players}
use snake_posix.Server.Turn.{Server, start_data}
use snake_posix.Server.Turns.{Turn}
use snake_posix.Player.{
  Player, PlayerManager, PlayerStatus, player_not_connected, player_playing, player_paused,
  player_dead, player_respawning, player_joining, player_disconnecting, player_other, is_status,
}
use snake_posix.Geometry.{Coordinates}
use snake_posix.Map.Moves.{Inside}
use snake_posix.Map.Neighbors.{tile_at}
use snake_posix.Changelog.{changelog_clear, first_changes}
use snake_posix.Changelog.Replay.{entries, replay}
use snake_posix.Player.Lifecycle.{TickStep, absent, is_alive}
use snake_posix.Server.{ProcessPlayerData}
use snake_posix.Server.Invariant.{IsBoard, has_body, CacheInside, is_dead, is_player, Good}

-- Between two ticks: the board has cells, the cached head and tail of each player with a body lie on
-- it, and so do those of the player of each player tile, and no tile is dead.
pub record Ready (self : Server) : Type 0 where
  pub board : IsBoard self.map
  pub bodies :
      (q : ℕ)
      → q < max_players
      → has_body (self.player_manager.players q).status ≡ true
      → CacheInside self.map self.player_data_cache q
  pub tiles :
      (c : Coordinates)
      → Inside self.map c
      → is_player (tile_at self.map c) ≡ true
      → CacheInside self.map self.player_data_cache (tile_at self.map c).player
  pub clear : (c : Coordinates) → Inside self.map c → is_dead (tile_at self.map c) ≡ false

-- One of the first `n` players plays or is paused.
unfoldable pub any_alive : ℕ → PlayerManager → Bool
any_alive zero m = false
any_alive (suc n) m = is_alive (m.players n).status || any_alive n m

any_alive_agree :
    (n : ℕ) (m m' : PlayerManager)
    → ((q : ℕ) → q < n → m'.players q ≡ m.players q)
    → any_alive n m' ≡ any_alive n m
unfolding any_alive
any_alive_agree zero m m' h = refl
any_alive_agree (suc n) m m' h =
    rw (h n (omega arith), any_alive_agree n m m' (λ q l. h q (omega arith))) refl

-- The loop over the players has passed those before index `i`.
pub record Passed (old : Map) (m0 : PlayerManager) (i : ℕ) (r : PlayerManager × ProcessPlayerData)
    : Type 0 where
  pub good : Good old r.0 r.1
  pub life : (q : ℕ) → q < i → TickStep (m0.players q).status (r.0.players q).status
  pub rest : (q : ℕ) → i ≤ q → r.0.players q ≡ m0.players q
  pub flag : r.1.no_player_alive ≡ not (any_alive i r.0)

module _ {old : Map} (m0 : PlayerManager) (k : ℕ) (m : PlayerManager) (d : ProcessPlayerData) where
  -- A player that is not connected is skipped, which is a turn as well.
  pub skip-Turn : (m.players k).status ≡ player_not_connected → Good old m d → Turn old m d k (m, d)
  skip-Turn e g = record {
    good = g;
    others = λ q ne. refl;
    life = subst (λ t. TickStep t t) (sym e) absent;
    flag = rw e refl;
  }

  pub Turn-Passed :
      (r : PlayerManager × ProcessPlayerData)
      → Passed old m0 k (m, d)
      → Turn old m d k r
      → Passed old m0 (k + 1) r
  unfolding any_alive
  Turn-Passed r s t = record {
    good = t.good;
    life = λ q l. elim (Bool-cases (q == k)) [
      | inl e ↦
          let same = ==→≡ q k e in
          subst (λ x. TickStep (m0.players x).status (r.0.players x).status) (sym same)
            (subst (λ (x : Player). TickStep x.status (r.0.players k).status)
              (s.rest k (omega arith)) t.life)
      | inr e ↦
          subst (λ (x : Player). TickStep (m0.players q).status x.status)
            (sym (t.others q (==→≢ q k e))) (s.life q (ground arith))
    ];
    rest = λ q l. t.others q (omega arith) ∙ s.rest q (omega arith);
    flag =
        let same = any_alive_agree k m r.0 (λ q l. t.others q (omega arith)) in
        rw add-one (ground (arith, t.flag, s.flag, same));
  }

pub start-Passed :
    (self : Server)
    → Ready self
    → Passed self.map self.player_manager 0 (self.player_manager, start_data self)
unfolding any_alive changelog_clear replay entries first_changes
start-Passed self s = record {
  good = record {
    width = refl;
    height = refl;
    bodies = s.bodies;
    tiles = s.tiles;
    dead = λ c i e. let clash : true ≡ false = sym e ∙ s.clear c i in cc;
    synced = λ c i. inl refl;
  };
  life = λ q l. absurd (omega arith);
  rest = λ q l. refl;
  flag = refl;
}

pub absent_status :
    (s : PlayerStatus) → not (is_status s player_not_connected) ≡ false → s ≡ player_not_connected
absent_status player_not_connected e = refl
absent_status player_playing e = absurd (ground arith)
absent_status player_paused e = absurd (ground arith)
absent_status player_dead e = absurd (ground arith)
absent_status player_respawning e = absurd (ground arith)
absent_status player_joining e = absurd (ground arith)
absent_status player_disconnecting e = absurd (ground arith)
absent_status (player_other n) e = absurd (ground arith)
