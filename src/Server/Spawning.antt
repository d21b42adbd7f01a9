-- ===== src/Server/Spawning.antt =====
-- `spawn_player`, with what is kept throughout a tick.
use snake_posix.Common.{
  ℕ, ◌≡◌, refl, subst, inl, inr, arith, Bool, true, false, ==-refl, Option, none, some,
  Option-cases,
}
use snake_posix.Common.Outcome.{ok}
use snake_posix.Rng.{Rng}
use snake_posix.Geometry.{direction_get_opposite, Direction, Coordinates}
use snake_posix.Map.{
  map_find_empty_neighbor, Map, tile_player, map_set_tile_state, map_set_tile_player,
}
use snake_posix.Map.Moves.{Inside, move-Inside}
use snake_posix.Map.Search.{map_find_random_matching_predicate}
use snake_posix.Map.Search.Complete.{Finds, find_random-Finds}
use snake_posix.Player.{player_playing, Player, PlayerManager, write_player}
use snake_posix.Server.{
  place_player, spawn_player, map_tile_is_empty_with_empty_neighbor_predicate, PlayerDataCache,
  ProcessPlayerData, player_data_cache_set_head, player_data_cache_set_tail,
}
use snake_posix.Server.Invariant.{
  IsBoard, CacheInside, Good, Good-IsBoard, Inside-Good, Good-flags, Good-cache, Good-write,
}
use snake_posix.Map.Neighbors.{EmptyNeighbor, map_find_empty_neighbor_lem}
use snake_posix.Server.Operations.{set_head-CacheInside, set_tail-CacheInside, write_player-Good}

placed-CacheInside :
    (old : Map) (cache : PlayerDataCache) (p : ℕ) (head tail : Coordinates)
    → Inside old head
    → Inside old tail
    → CacheInside old
        (player_data_cache_set_tail (player_data_cache_set_head cache p head) p tail)
        p
unfolding player_data_cache_set_head player_data_cache_set_tail
placed-CacheInside old cache p head tail i j = rw (==-refl p) (i, j)

has_neighbor :
    (m : Map) (c : Coordinates)
    → map_tile_is_empty_with_empty_neighbor_predicate m c ≡ true
    → (q : Coordinates) × (d : Direction) × (map_find_empty_neighbor m c ≡ some (q, d))
unfolding map_tile_is_empty_with_empty_neighbor_predicate
has_neighbor m c h = elim (Option-cases (map_find_empty_neighbor m c)) [
  | inl e ↦ absurd (ground arith)
  | inr ((q, d), e) ↦ (q, d, e)
]

module _ {old : Map} (board : IsBoard old) {manager : PlayerManager} {ctx : ProcessPlayerData}
    (g : Good old manager ctx) where
  -- The two tiles of a new snake.
  place_player-Good :
      (p : ℕ) (head : Coordinates) (rng : Rng)
      → Inside ctx.map head
      → map_tile_is_empty_with_empty_neighbor_predicate ctx.map head ≡ true
      → (d : ProcessPlayerData) × (player : Player) × (place_player rng manager ctx p head
          ≡ ok (write_player manager p player, d))
        × (player.status ≡ player_playing)
        × Good old (write_player manager p player) d
        × (d.no_player_alive ≡ ctx.no_player_alive)
  unfolding place_player map_set_tile_player map_set_tile_state
  place_player-Good p head rng i h =
      let (tail, dir, e) = has_neighbor ctx.map head h in
      let near : EmptyNeighbor ctx.map head (some (tail, dir)) =
        subst (EmptyNeighbor ctx.map head) e (map_find_empty_neighbor_lem ctx.map head) in
      let inside_head = Inside-Good g head i in
      let inside_tail : Inside old tail =
        rw near.0
          (Inside-Good g _ (move-Inside ctx.map head dir (Good-IsBoard g board).fits.sizes i)) in
      let cache' =
        player_data_cache_set_tail (player_data_cache_set_head ctx.player_data_cache p head) p
          tail in
      let own = placed-CacheInside old ctx.player_data_cache p head tail inside_head inside_tail in
      let g1 = Good-cache g cache' (λ q c.
        set_tail-CacheInside old _ p tail inside_tail q
          (set_head-CacheInside old ctx.player_data_cache p head inside_head q c)) in
      let g2 =
        Good-write g1 head (record { order = 1; type = tile_player; player = p }) refl (λ _. own) in
      let g3 =
        Good-write g2 tail (record { order = 0; type = tile_player; player = p }) refl (λ _. own) in
      let player : Player = record {
        status = player_playing;
        direction = direction_get_opposite dir;
      } in
      (_, player, rw (e, place_player), refl, write_player-Good board g3 p player (λ _. own), refl)

-- What `spawn_player` gives: a snake on the board, or nothing but draws.
unfoldable pub Spawned :
    Map → PlayerManager → ProcessPlayerData → ℕ → Bool × PlayerManager × ProcessPlayerData → Type 0
Spawned old manager ctx p (true, m', d) =
    (player : Player) × (m' ≡ write_player manager p player)
    × (player.status ≡ player_playing)
    × Good old m' d
    × (d.no_player_alive ≡ ctx.no_player_alive)
Spawned old manager ctx p (false, m', d) =
    (m' ≡ manager) × Good old manager d × (d.no_player_alive ≡ ctx.no_player_alive)

pub spawn_player-Spawned :
    (rng : Rng) {old : Map} (board : IsBoard old) {manager : PlayerManager}
    {ctx : ProcessPlayerData} (g : Good old manager ctx) (p : ℕ)
    → (r : Bool × PlayerManager × ProcessPlayerData) × (spawn_player rng manager ctx p ≡ ok r)
      × Spawned old manager ctx p r
unfolding spawn_player Spawned
spawn_player-Spawned rng {old} board {manager} {ctx} g p = pick (
    find_random-Finds rng ctx.map map_tile_is_empty_with_empty_neighbor_predicate b.fits ctx.seed
      b.tall b.wide)
  where
    b : IsBoard ctx.map
    b = Good-IsBoard g board

    pick :
        (r : Option Coordinates × ℕ) × (map_find_random_matching_predicate rng ctx.map
              map_tile_is_empty_with_empty_neighbor_predicate ctx.seed
            ≡ ok r)
          × Finds rng ctx.map map_tile_is_empty_with_empty_neighbor_predicate b.fits r
        → (r : Bool × PlayerManager × ProcessPlayerData) × (spawn_player rng manager ctx p ≡ ok r)
          × Spawned old manager ctx p r
    pick ((none, seed'), e, f) = (
      (false, manager, record ctx { seed = seed' }),
      rw e,
      (refl, Good-flags g ctx.fruits_eaten seed' ctx.no_player_alive, refl),
    )
    pick ((some head, seed'), e, f) =
        let g' = Good-flags g ctx.fruits_eaten seed' ctx.no_player_alive in
        let (d, player, e', st, gd, flag) = place_player-Good board g' p head rng f.0 f.1 in
        ((true, write_player manager p player, d), rw (e, e'), (player, refl, st, gd, flag))
