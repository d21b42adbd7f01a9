-- ===== src/Server/Operations.antt =====
-- The operations of a turn, each with what is kept throughout a tick.
use snake_posix.Common.{
  ℕ, ◌≡◌, refl, sym, ap, ◌∙◌, subst, inl, inr, true, false, ◌==◌, if_intro, Bool-cases, ==→≡,
  Option, none, some,
}
use snake_posix.Common.Outcome.{ok, exit_failure, Ensures}
use snake_posix.Rng.{Rng}
use snake_posix.Geometry.{Coordinates}
use snake_posix.Map.{
  MapTile, Map, tile_empty, tile_player, tile_fruit, map_set_tile_state, map_set_tile_empty,
  map_set_tile_player, map_set_tile_fruit, map_find_player_neighbor_with_lowest_order,
}
use snake_posix.Map.Moves.{Inside, move-Inside}
use snake_posix.Map.Neighbors.{tile_at, LowestNeighbor, find_lowest-LowestNeighbor}
use snake_posix.Map.Death.Flood.{mark_player_as_dead-Dies}
use snake_posix.Map.Search.{map_find_random_matching_predicate}
use snake_posix.Map.Search.Complete.{Finds, find_random-Finds}
use snake_posix.Changelog.Replay.{tile_at-set}
use snake_posix.Player.{Player, PlayerManager, player_dead, write_player}
use snake_posix.Server.{
  PlayerDataCache, ProcessPlayerData, player_data_cache_get_head, player_data_cache_get_tail,
  player_data_cache_set_head, player_data_cache_set_tail, push_changelog_tile, set_tail,
  move_player_head, clear_tail, move_player_tail, kill_player, spawn_fruit, set_status,
  map_tile_is_empty_predicate,
}
use snake_posix.Server.Invariant.{
  IsBoard, has_body, CacheInside, is_dead, is_player, Good, Good-IsBoard, Good-Inside, Inside-Good,
  Good-flags, Good-cache, Good-players, Good-write, Good-push,
}

pub set_head-CacheInside :
    (old : Map) (cache : PlayerDataCache) (p : ℕ) (c : Coordinates)
    → Inside old c
    → (q : ℕ) → CacheInside old cache q
    → CacheInside old (player_data_cache_set_head cache p c) q
unfolding player_data_cache_set_head
set_head-CacheInside old cache p c i q h = elim (Bool-cases (q == p)) [
  | inl e ↦ rw e (i, h.1)
  | inr e ↦ rw e h
]

pub set_tail-CacheInside :
    (old : Map) (cache : PlayerDataCache) (p : ℕ) (c : Coordinates)
    → Inside old c
    → (q : ℕ) → CacheInside old cache q
    → CacheInside old (player_data_cache_set_tail cache p c) q
unfolding player_data_cache_set_tail
set_tail-CacheInside old cache p c i q h = elim (Bool-cases (q == p)) [
  | inl e ↦ rw e (h.0, i)
  | inr e ↦ rw e h
]

module _ {old : Map} (board : IsBoard old) {manager : PlayerManager} {ctx : ProcessPlayerData}
    (g : Good old manager ctx) where
  -- The head of a snake on the board moves to a cell of the board.
  pub move_player_head-Good :
      (p : ℕ) (next : Coordinates)
      → CacheInside old ctx.player_data_cache p
      → Inside old next
      → Good old manager (move_player_head ctx p next)
  unfolding move_player_head map_set_tile_player map_set_tile_state
  move_player_head-Good p next h i =
      let keep = set_head-CacheInside old ctx.player_data_cache p next i in
      Good-write (Good-cache g (player_data_cache_set_head ctx.player_data_cache p next) keep) next
        (record { order = _; type = tile_player; player = p }) refl (λ _. keep p h)

  pub clear_tail-Good : (p : ℕ) (tail : Coordinates) → Good old manager (clear_tail ctx p tail)
  unfolding clear_tail map_set_tile_empty map_set_tile_state
  clear_tail-Good p tail =
      if_intro (Good old manager) _ _ ctx
        (λ e.
          Good-write g tail (record (tile_at ctx.map tail) { type = tile_empty }) refl (λ n. cc))
        (λ e. g)

  clear_tail_cache :
      (p : ℕ) (tail : Coordinates)
      → (clear_tail ctx p tail).player_data_cache ≡ ctx.player_data_cache
  unfolding clear_tail
  clear_tail_cache p tail =
      if_intro (λ (d : ProcessPlayerData). d.player_data_cache ≡ ctx.player_data_cache) _ _ ctx
        (λ e. refl) (λ e. refl)

  -- The tail of a snake on the board moves to a cell of the board, or the process exits.
  pub move_player_tail-Good :
      (p : ℕ)
      → CacheInside old ctx.player_data_cache p
      → Ensures (move_player_tail ctx p) (Good old manager)
  unfolding move_player_tail player_data_cache_get_tail
  move_player_tail-Good p h =
      pick (map_find_player_neighbor_with_lowest_order d.map p tail)
        (find_lowest-LowestNeighbor d.map p tail)
    where
      tail : Coordinates
      tail = ctx.player_data_cache.tail p

      d : ProcessPlayerData
      d = clear_tail ctx p tail

      gd : Good old manager d
      gd = clear_tail-Good p tail

      pick :
          (o : Option Coordinates)
          → LowestNeighbor d.map p tail o
          → Ensures {A = ProcessPlayerData}
              (elim o [
                | none ↦ exit_failure
                | some next_tail ↦ ok (push_changelog_tile (set_tail d p next_tail) next_tail)
              ])
              (Good old manager)
      pick none l = tt
      pick (some next) l =
          let inside : Inside old next = rw (l.1.1) (
            Inside-Good gd _ (
              move-Inside d.map tail l.1.0 (Good-IsBoard gd board).fits.sizes
                (Good-Inside gd tail h.1))) in
          Good-push
            (Good-cache gd (player_data_cache_set_tail d.player_data_cache p next)
              (set_tail-CacheInside old d.player_data_cache p next inside))
            next

  -- A player may get a status with a body where its cache is inside.
  pub write_player-Good :
      (p : ℕ) (player : Player)
      → (has_body player.status ≡ true → CacheInside old ctx.player_data_cache p)
      → Good old (write_player manager p player) ctx
  write_player-Good p player h = Good-players g (write_player manager p player) (λ q l.
      if_intro (λ (x : Player). has_body x.status ≡ true → CacheInside old ctx.player_data_cache q)
        (q == p) player (manager.players q)
        (λ e b. subst (CacheInside old ctx.player_data_cache) (sym (==→≡ q p e)) (h b))
        (λ e b. g.bodies q l b))

  -- The death of a snake whose head is on the board.
  pub kill_player-Good :
      (p : ℕ)
      → CacheInside old ctx.player_data_cache p
      → (d : ProcessPlayerData) × (kill_player manager ctx p
          ≡ ok (set_status manager p player_dead, d))
        × Good old manager d
        × (d.no_player_alive ≡ ctx.no_player_alive)
  unfolding kill_player player_data_cache_get_head
  kill_player-Good p h =
      let head = ctx.player_data_cache.head p in
      let k =
        mark_player_as_dead-Dies ctx.map p head (Good-IsBoard g board).fits.sizes
          (Good-Inside g head h.0) in
      (
        record ctx { map = k.out; player_died = true },
        rw k.returns,
        record {
          width = k.same_width ∙ g.width;
          height = k.same_height ∙ g.height;
          bodies = g.bodies;
          tiles = λ c i e. elim (k.changed c) [
            | inl same ↦
                subst (CacheInside old ctx.player_data_cache) (sym (ap (λ x. x.player) same))
                  (g.tiles c i (sym (ap is_player same) ∙ e))
            | inr (died, _, _) ↦ let clash : true ≡ false = sym e ∙ ap is_player died in cc
          ];
          dead = λ c i e. refl;
          synced = λ c i. elim (k.changed c) [
            | inl same ↦ elim (g.synced c i) [
              | inl e ↦ inl (e ∙ sym same)
              | inr e ↦ inr (ap is_dead same ∙ e)
            ]
            | inr (died, _, _) ↦ inr (ap is_dead died)
          ];
        },
        refl,
      )

  module _ (rng : Rng) where
    -- A fruit is put on an empty cell, or there is none.
    pub spawn_fruit-Good :
        (d : ProcessPlayerData) × (spawn_fruit rng ctx ≡ ok d)
        × Good old manager d
        × (d.no_player_alive ≡ ctx.no_player_alive)
        × ((c : Coordinates)
            → is_dead (tile_at d.map c) ≡ true
            → is_dead (tile_at ctx.map c) ≡ true)
    unfolding spawn_fruit map_set_tile_fruit map_set_tile_state
    spawn_fruit-Good =
        pick
          (find_random-Finds rng ctx.map map_tile_is_empty_predicate b.fits ctx.seed b.tall b.wide)
      where
        b : IsBoard ctx.map
        b = Good-IsBoard g board

        pick :
            (r : Option Coordinates × ℕ) × (map_find_random_matching_predicate rng ctx.map
                  map_tile_is_empty_predicate ctx.seed
                ≡ ok r)
              × Finds rng ctx.map map_tile_is_empty_predicate b.fits r
            → (d : ProcessPlayerData) × (spawn_fruit rng ctx ≡ ok d)
              × Good old manager d
              × (d.no_player_alive ≡ ctx.no_player_alive)
              × ((c : Coordinates)
                  → is_dead (tile_at d.map c) ≡ true
                  → is_dead (tile_at ctx.map c) ≡ true)
        pick ((none, seed'), e, f) = (
          record ctx { seed = seed' },
          rw e,
          Good-flags g ctx.fruits_eaten seed' ctx.no_player_alive,
          refl,
          λ c h. h,
        )
        pick ((some c, seed'), e, f) =
            let fruit : MapTile = record (tile_at ctx.map c) { type = tile_fruit } in
            (
              _,
              rw e,
              Good-write (Good-flags g ctx.fruits_eaten seed' ctx.no_player_alive) c fruit refl
                  (λ n. cc),
              refl,
              λ q h. elim (tile_at-set ctx.map c q fruit) [
                | inl (_, new) ↦ let clash : true ≡ false = sym h ∙ ap is_dead new in cc
                | inr (_, kept) ↦ sym (ap is_dead kept) ∙ h
              ],
            )
