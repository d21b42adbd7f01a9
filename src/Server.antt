-- ===== src/Server.antt =====
-- `server/server.{h,c}` and `server/player_data_cache.{h,c}`: what one tick does to the board, the
-- players and the changelog. `server_init` and `server_destroy` are not here: they allocate and
-- free.
pub mod Invariant
pub mod Operations
pub mod Spawning
pub mod Turn
pub mod Turns
pub mod Sweep
pub mod Passed
pub mod Tick
pub mod Start
use snake_posix.Common.{
  ℕ, zero, suc, ◌+◌, ◌-◌, ◌*◌, ◌/◌, ◌%◌, ◌^◌, ◌≤◌, ◌<◌, ◌≡◌, refl, sym, ap, ◌∙◌, subst, ◌≢◌, ◌↔◌,
  ◌⊎◌, inl, inr, arith, Bool, true, false, not, ◌&&◌, ◌||◌, ◌==◌, ltb, leb, if◌then◌else◌, if_intro,
  Bool-cases, ==-refl, ==→≡, ==→≢, Option, none, some, Option-cases, List, [], ◌∷◌, ◌++◌,
}
use package.snake_posix.Common.Outcome.{Outcome, ok, exit_failure, undefined, ◌>>=◌}
use package.snake_posix.Rng.{Rng}
use package.snake_posix.Geometry.{Coordinates, coordinates_equal, Direction, direction_get_opposite}
use package.snake_posix.Map.{
  Map, MapTile, tile_empty, tile_player, tile_fruit, is_type, map_get_tile_state, map_is_tile_empty,
  map_is_tile_dead, map_set_tile_empty, map_set_tile_player, map_set_tile_fruit,
  map_move_in_direction, map_find_player_neighbor_with_lowest_order, map_find_empty_neighbor,
}
use package.snake_posix.Map.Death.{map_mark_player_as_dead}
use package.snake_posix.Map.Search.{map_find_random_matching_predicate}
use package.snake_posix.Changelog.{Changelog, changelog_clear, changelog_push_tile_state_change}
use package.snake_posix.Player.{
  Player, PlayerManager, player_not_connected, player_playing, player_paused, player_dead,
  player_respawning, player_joining, player_disconnecting, PlayerStatus, is_status, write_player,
  player_manager_peek_player_state, player_manager_for_each,
}

-- `player_data_cache_t`
pub record PlayerDataCache : Type 0 where
  pub head : ℕ → Coordinates
  pub tail : ℕ → Coordinates

unfoldable pub player_data_cache_get_head : PlayerDataCache → ℕ → Coordinates
player_data_cache_get_head self player = self.head player

unfoldable pub player_data_cache_get_tail : PlayerDataCache → ℕ → Coordinates
player_data_cache_get_tail self player = self.tail player

unfoldable pub player_data_cache_set_head : PlayerDataCache → ℕ → Coordinates → PlayerDataCache
player_data_cache_set_head self player coordinates = record self {
  head = λ i. if i == player then coordinates else self.head i;
}

unfoldable pub player_data_cache_set_tail : PlayerDataCache → ℕ → Coordinates → PlayerDataCache
player_data_cache_set_tail self player coordinates = record self {
  tail = λ i. if i == player then coordinates else self.tail i;
}

-- `process_player_data_t`, with what its pointers refer to, and the state of the generator.
pub record ProcessPlayerData : Type 0 where
  pub changelog : Changelog
  pub map : Map
  pub player_data_cache : PlayerDataCache
  pub fruits_eaten : ℕ
  pub player_died : Bool
  pub no_player_alive : Bool
  pub seed : ℕ

-- The macro `PUSH_CHANGELOG_TILE`.
abbrev pub push_changelog_tile : ProcessPlayerData → Coordinates → ProcessPlayerData
push_changelog_tile ctx coord = record ctx {
  changelog =
      changelog_push_tile_state_change ctx.changelog coord (map_get_tile_state ctx.map coord);
}

abbrev set_map : ProcessPlayerData → Map → ProcessPlayerData
set_map ctx m = record ctx { map = m }

abbrev set_head : ProcessPlayerData → ℕ → Coordinates → ProcessPlayerData
set_head ctx player_id c = record ctx {
  player_data_cache = player_data_cache_set_head ctx.player_data_cache player_id c;
}

abbrev set_tail : ProcessPlayerData → ℕ → Coordinates → ProcessPlayerData
set_tail ctx player_id c = record ctx {
  player_data_cache = player_data_cache_set_tail ctx.player_data_cache player_id c;
}

-- `order_` is a `size_t`.
unfoldable pub move_player_head : ProcessPlayerData → ℕ → Coordinates → ProcessPlayerData
move_player_head ctx player_id next_head =
    let head = player_data_cache_get_head ctx.player_data_cache player_id in
    let head_state = map_get_tile_state ctx.map head in
    let d1 =
      set_map ctx
        (map_set_tile_player ctx.map next_head player_id ((head_state.order + 1) % 2 ^ 64)) in
    push_changelog_tile (set_head d1 player_id next_head) next_head

-- The conditional part of `move_player_tail`: the tail tile is cleared unless another snake or
-- the player's own head has taken it.
pub clear_tail : ProcessPlayerData → ℕ → Coordinates → ProcessPlayerData
clear_tail ctx player_id tail =
    let tail_state = map_get_tile_state ctx.map tail in
    let head = player_data_cache_get_head ctx.player_data_cache player_id in
    if is_type tail_state.type tile_player
      && tail_state.player == player_id
      && not (coordinates_equal head tail)
    then push_changelog_tile (set_map ctx (map_set_tile_empty ctx.map tail)) tail
    else ctx

unfoldable pub move_player_tail : ProcessPlayerData → ℕ → Outcome ProcessPlayerData
move_player_tail ctx player_id =
    let tail = player_data_cache_get_tail ctx.player_data_cache player_id in
    let d1 = clear_tail ctx player_id tail in
    elim (map_find_player_neighbor_with_lowest_order d1.map player_id tail) [
      | none ↦ exit_failure
      | some next_tail ↦ ok (push_changelog_tile (set_tail d1 player_id next_tail) next_tail)
    ]

-- A write to `player->status_`.
abbrev pub set_status : PlayerManager → ℕ → PlayerStatus → PlayerManager
set_status manager player_id status =
    write_player manager player_id (record (manager.players player_id) { status = status })

unfoldable pub kill_player :
    PlayerManager → ProcessPlayerData → ℕ → Outcome (PlayerManager × ProcessPlayerData)
kill_player manager ctx player_id = do
  let head = player_data_cache_get_head ctx.player_data_cache player_id
  m ← map_mark_player_as_dead ctx.map player_id head
  ok (set_status manager player_id player_dead, record ctx { map = m; player_died = true })

pub map_tile_is_empty_predicate : Map → Coordinates → Bool
map_tile_is_empty_predicate map coordinates = map_is_tile_empty map coordinates

pub map_tile_is_empty_with_empty_neighbor_predicate : Map → Coordinates → Bool
map_tile_is_empty_with_empty_neighbor_predicate map coordinates =
    if map_is_tile_empty map coordinates
    then elim (map_find_empty_neighbor map coordinates) [ none ↦ false | some x ↦ true ]
    else false

unfoldable pub is_player_paused : PlayerManager → ℕ → Bool
is_player_paused manager player =
    is_status (player_manager_peek_player_state manager player).status player_paused

module _ (rng : Rng) where
  unfoldable pub spawn_fruit : ProcessPlayerData → Outcome ProcessPlayerData
  spawn_fruit ctx = do
    (found, seed') ←
        map_find_random_matching_predicate rng ctx.map map_tile_is_empty_predicate ctx.seed
    let d1 : ProcessPlayerData = record ctx { seed = seed' }
    ok (elim found [
      | none ↦ d1
      | some fruit ↦ push_changelog_tile (set_map d1 (map_set_tile_fruit d1.map fruit)) fruit
    ])

  -- What `spawn_player` does once it has a head. The C code reads `tail` also where
  -- `map_find_empty_neighbor` has not set it.
  unfoldable pub place_player :
      PlayerManager
      → ProcessPlayerData
      → ℕ
      → Coordinates
      → Outcome (PlayerManager × ProcessPlayerData)
  place_player manager d player_id head = elim (map_find_empty_neighbor d.map head) [
    | none ↦ undefined
    | some (tail, tail_direction) ↦
        let d1 = set_map d (map_set_tile_player d.map head player_id 1) in
        let d2 = push_changelog_tile (set_head d1 player_id head) head in
        let d3 = set_map d2 (map_set_tile_player d2.map tail player_id 0) in
        let d4 = push_changelog_tile (set_tail d3 player_id tail) tail in
        ok (
          write_player manager player_id (record {
            status = player_playing;
            direction = direction_get_opposite tail_direction;
          }),
          d4,
        )
  ]

  -- The Boolean is the result.
  unfoldable pub spawn_player :
      PlayerManager → ProcessPlayerData → ℕ → Outcome (Bool × PlayerManager × ProcessPlayerData)
  spawn_player manager ctx player_id = do
    (found, seed') ←
        map_find_random_matching_predicate rng ctx.map
          map_tile_is_empty_with_empty_neighbor_predicate ctx.seed
    let d : ProcessPlayerData = record ctx { seed = seed' }
    elim found [
      | none ↦ ok (false, manager, d)
      | some head ↦ place_player manager d player_id head >>= λ (m', d'). ok (true, m', d')
    ]
