-- ===== src/Server/Sweep.antt =====
-- The loop of `server_tick` that clears the dead tiles, and the one that replaces eaten fruits.
use snake_posix.Common.{
  ℕ, zero, suc, ◌+◌, ◌≡◌, refl, sym, ap, ◌∙◌, subst, ◌⊎◌, inl, inr, arith, Bool, true, false, ◌&&◌,
  ◌||◌, ◌==◌, ltb, if_intro, Bool-cases,
}
use snake_posix.Common.Loops.{for_range, for_range_inv}
use snake_posix.Geometry.{Coordinates}
use snake_posix.Map.{
  Map, MapTile, tile_empty, map_is_tile_dead, map_set_tile_empty, map_set_tile_state,
}
use snake_posix.Map.Moves.{Inside}
use snake_posix.Map.Neighbors.{tile_at}
use snake_posix.Changelog.Replay.{tile_at-set}
use snake_posix.Player.{PlayerManager}
use snake_posix.Server.{ProcessPlayerData}
use snake_posix.Server.Turn.{clear_dead, clear_all_dead, spawn_fruits}
use snake_posix.Rng.{Rng}
use snake_posix.Common.Outcome.{◌>>=◌, Ensures}
use snake_posix.Server.Invariant.{IsBoard, is_dead, Good, Good-write}
use snake_posix.Server.Operations.{spawn_fruit-Good}

module _ (old : Map) (manager : PlayerManager) (v : Bool) where
  -- The cells that pass the test hold no dead tile.
  record Swept (done : Coordinates → Bool) (d : ProcessPlayerData) : Type 0 where
    good : Good old manager d
    flag : d.no_player_alive ≡ v
    clear : (c : Coordinates) → Inside old c → done c ≡ true → is_dead (tile_at d.map c) ≡ false

  clear_dead-Swept :
      (done done' : Coordinates → Bool) (i j : ℕ) (d : ProcessPlayerData)
      → ((c : Coordinates)
          → done' c ≡ true
          → (c ≡ record { row = i; column = j }) ⊎ (done c ≡ true))
      → Swept done d
      → Swept done' (clear_dead i j d)
  unfolding clear_dead map_is_tile_dead map_set_tile_empty map_set_tile_state
  clear_dead-Swept done done' i j d grow s =
      if_intro (Swept done') (is_dead (tile_at d.map at)) _ d
        (λ e. record {
          good = Good-write s.good at blank refl (λ n. cc);
          flag = s.flag;
          clear = λ c ic h. elim (tile_at-set d.map at c blank) [
            | inl (_, new) ↦ ap is_dead new
            | inr (ne, kept) ↦ elim (grow c h) [
              | inl same ↦ absurd (ne same)
              | inr h' ↦ ap is_dead kept ∙ s.clear c ic h'
            ]
          ];
        })
        (λ e. record {
          good = s.good;
          flag = s.flag;
          clear = λ c ic h. elim (grow c h) [
            | inl same ↦ ap (λ q. is_dead (tile_at d.map q)) same ∙ e
            | inr h' ↦ s.clear c ic h'
          ];
        })
    where
      at : Coordinates
      at = record { row = i; column = j }

      blank : MapTile
      blank = record (tile_at d.map at) { type = tile_empty }

  abbrev before : ℕ → ℕ → Coordinates → Bool
  before i k c = ltb c.row i || (c.row == i && ltb c.column k)

  Swept-weaken :
      (done done' : Coordinates → Bool) (d : ProcessPlayerData)
      → ((c : Coordinates) → Inside old c → done' c ≡ true → done c ≡ true)
      → Swept done d
      → Swept done' d
  Swept-weaken done done' d h s = record {
    good = s.good;
    flag = s.flag;
    clear = λ c i e. s.clear c i (h c i e);
  }

  -- After the sweep no cell of the board is dead.
  pub clear_all_dead-Good :
      (d : ProcessPlayerData)
      → Good old manager d
      → d.no_player_alive ≡ v
      → Good old manager (clear_all_dead d)
        × ((clear_all_dead d).no_player_alive ≡ v)
        × ((c : Coordinates) → Inside old c → is_dead (tile_at (clear_all_dead d).map c) ≡ false)
  unfolding clear_all_dead
  clear_all_dead-Good d g flag =
      let h = d.map.height in
      let w = d.map.width in
      let start : Swept (before 0 0) d = record {
        good = g;
        flag = flag;
        clear = λ c i e. absurd (ground arith);
      } in
      let run =
        for_range_inv (λ i u. Swept (before i 0) u) (λ i. for_range w 0 (clear_dead i)) h 0 h d
          (omega arith)
          (λ i t lt s.
            Swept-weaken (before i w) (before (i + 1) 0) _ (λ c ic e. ground (arith, g.width))
              (for_range_inv (λ k u. Swept (before i k) u) (clear_dead i) w 0 w t (omega arith)
                (λ k u l s'.
                  clear_dead-Swept (before i k) (before i (k + 1)) i k u (λ c e. ground arith) s')
                s))
          start in
      (run.good, run.flag, λ c i. run.clear c i (ground (arith, g.height)))

module _ (rng : Rng) {old : Map} (board : IsBoard old) (manager : PlayerManager) (v : Bool) where
  -- What holds once no dead tile is left.
  pub record Clean (d : ProcessPlayerData) : Type 0 where
    pub good : Good old manager d
    pub flag : d.no_player_alive ≡ v
    pub clear : (c : Coordinates) → Inside old c → is_dead (tile_at d.map c) ≡ false

  -- The eaten fruits are replaced, without an endless search.
  pub spawn_fruits-Clean :
      (n : ℕ) (ctx : ProcessPlayerData) → Clean ctx → Ensures (spawn_fruits rng n ctx) Clean
  unfolding spawn_fruits
  spawn_fruits-Clean zero ctx s = s
  spawn_fruits-Clean (suc n) ctx s =
      let (d, e, gd, flag, dead) = spawn_fruit-Good board s.good rng in
      subst (λ o. Ensures (o >>= spawn_fruits rng n) Clean) (sym e)
        (spawn_fruits-Clean n d (record {
          good = gd;
          flag = flag ∙ s.flag;
          clear = λ c i. elim (Bool-cases (is_dead (tile_at d.map c))) [
            | inl h ↦ let clash : true ≡ false = sym (dead c h) ∙ s.clear c i in cc
            | inr h ↦ h
          ];
        }))
