-- ===== src/Server/Turn.antt =====
-- `server_tick_process_player`, `server_tick` and `server_end_game` of `server/server.c`.
use snake_posix.Common.{ℕ, zero, suc, ◌+◌, Bool, true, false, not, ◌||◌, ◌==◌, ltb, if◌then◌else◌}
use snake_posix.Common.Loops.{for_range}
use snake_posix.Common.Outcome.{Outcome, ok, ◌>>=◌}
use snake_posix.Rng.{Rng}
use snake_posix.Geometry.{Coordinates, coordinates_equal}
use snake_posix.Map.{
  Map, MapTile, tile_empty, tile_player, tile_fruit, is_type, map_get_tile_state, map_is_tile_dead,
  map_set_tile_empty, map_move_in_direction,
}
use snake_posix.Changelog.{Changelog, changelog_clear}
use snake_posix.Player.{
  PlayerManager, PlayerStatus, player_not_connected, player_playing, player_paused, player_dead,
  player_respawning, player_joining, player_disconnecting, player_manager_peek_player_state,
  player_manager_for_each,
}
use snake_posix.Ticker.{Ticker, ticker_tick}
use snake_posix.Server.{
  PlayerDataCache, player_data_cache_get_head, player_data_cache_get_tail, ProcessPlayerData,
  push_changelog_tile, move_player_head, move_player_tail, kill_player, is_player_paused,
  spawn_fruit, spawn_player, set_status,
}

-- The end of each branch in which the player lives on.
abbrev pub alive : ProcessPlayerData → ProcessPlayerData
alive ctx = record ctx { no_player_alive = false }

-- `move_player_head`, `move_player_tail`, and the end of the branch.
unfoldable pub advance :
    PlayerManager
    → ProcessPlayerData
    → ℕ
    → Coordinates
    → Outcome (PlayerManager × ProcessPlayerData)
advance manager ctx player_id next_head = do
  ctx ← move_player_tail (move_player_head ctx player_id next_head) player_id
  ok (manager, alive ctx)

-- The next cell holds a player's tile.
unfoldable pub meet_player :
    PlayerManager
    → ProcessPlayerData
    → ℕ
    → Coordinates
    → MapTile
    → Outcome (PlayerManager × ProcessPlayerData)
meet_player manager ctx player_id next_head next_head_state =
    let other = next_head_state.player in
    let other_tail = player_data_cache_get_tail ctx.player_data_cache other in
    let other_player = player_manager_peek_player_state manager other in
    let other_head = player_data_cache_get_head ctx.player_data_cache other in
    let other_next_head = map_move_in_direction ctx.map other_head other_player.direction in
    let other_next_head_state = map_get_tile_state ctx.map other_next_head in
    if player_id == other
    then (if coordinates_equal next_head other_tail
        then advance manager ctx player_id next_head
        else kill_player manager ctx player_id)
    else (if not (coordinates_equal next_head other_tail)
          || ltb other player_id
          || is_player_paused manager other
        then kill_player manager ctx player_id
        else (if is_type other_next_head_state.type tile_empty
            then advance manager ctx player_id next_head
            else kill_player manager ctx player_id))

-- The part for `PLAYER_PLAYING`.
unfoldable pub play_turn :
    PlayerManager → ProcessPlayerData → ℕ → Outcome (PlayerManager × ProcessPlayerData)
play_turn manager ctx player_id =
    let head = player_data_cache_get_head ctx.player_data_cache player_id in
    let next_head = map_move_in_direction ctx.map head (manager.players player_id).direction in
    let next_head_state = map_get_tile_state ctx.map next_head in
    let eaten = move_player_head ctx player_id next_head in
    if is_type next_head_state.type tile_empty
    then advance manager ctx player_id next_head
    else (if is_type next_head_state.type tile_fruit
        then ok (manager, alive (record eaten { fruits_eaten = eaten.fruits_eaten + 1 }))
        else (if is_type next_head_state.type tile_player
            then meet_player manager ctx player_id next_head next_head_state
            else kill_player manager ctx player_id))

module _ (rng : Rng) where
  -- The part for `PLAYER_RESPAWNING` and `PLAYER_JOINING`.
  unfoldable pub spawn_turn :
      Bool → PlayerManager → ProcessPlayerData → ℕ → Outcome (PlayerManager × ProcessPlayerData)
  spawn_turn should_spawn_fruit manager ctx player_id = do
    (spawned, manager', ctx') ← spawn_player rng manager ctx player_id
    if spawned
        then ((if should_spawn_fruit then spawn_fruit rng ctx' else ok ctx') >>= λ ctx''.
            ok (manager', alive ctx''))
        else ok (set_status manager' player_id player_dead, ctx')

  -- The tests on `player->status_`, in their order.
  unfoldable pub turn_of :
      PlayerStatus
      → PlayerManager
      → ℕ
      → ProcessPlayerData
      → Outcome (PlayerManager × ProcessPlayerData)
  turn_of player_respawning manager player_id ctx = spawn_turn false manager ctx player_id
  turn_of player_joining manager player_id ctx = spawn_turn true manager ctx player_id
  turn_of player_disconnecting manager player_id ctx = do
    (manager', ctx') ← kill_player manager ctx player_id
    ok (set_status manager' player_id player_not_connected, ctx')
  turn_of player_paused manager player_id ctx = ok (manager, alive ctx)
  turn_of player_playing manager player_id ctx = play_turn manager ctx player_id
  turn_of _ manager player_id ctx = ok (manager, ctx)

  unfoldable pub server_tick_process_player :
      PlayerManager → ℕ → ProcessPlayerData → Outcome (PlayerManager × ProcessPlayerData)
  unfolding turn_of
  server_tick_process_player manager player_id ctx =
      turn_of (manager.players player_id).status manager player_id ctx

-- The body of the loop that clears the dead tiles.
unfoldable pub clear_dead : ℕ → ℕ → ProcessPlayerData → ProcessPlayerData
clear_dead i j ctx =
    let coordinates : Coordinates = record { row = i; column = j } in
    if map_is_tile_dead ctx.map coordinates
    then push_changelog_tile (record ctx { map = map_set_tile_empty ctx.map coordinates })
        coordinates
    else ctx

unfoldable pub clear_all_dead : ProcessPlayerData → ProcessPlayerData
unfolding clear_dead for_range
clear_all_dead ctx = for_range ctx.map.height 0 (λ i. for_range ctx.map.width 0 (clear_dead i)) ctx

-- `n` rounds of the loop over `fruits_eaten_`.
unfoldable pub spawn_fruits : Rng → ℕ → ProcessPlayerData → Outcome ProcessPlayerData
spawn_fruits rng zero ctx = ok ctx
spawn_fruits rng (suc n) ctx = spawn_fruit rng ctx >>= spawn_fruits rng n

-- `server_t` and the `game_state_t` that it points to, with the state of the generator.
pub record Server : Type 0 where
  pub changelog : Changelog
  pub map : Map
  pub player_manager : PlayerManager
  pub ticker : Ticker
  pub game_ended : Bool
  pub player_data_cache : PlayerDataCache
  pub seed : ℕ

abbrev pub start_data : Server → ProcessPlayerData
start_data self = record {
  changelog = changelog_clear self.changelog;
  map = self.map;
  player_data_cache = self.player_data_cache;
  fruits_eaten = 0;
  player_died = false;
  no_player_alive = true;
  seed = self.seed;
}

-- The mutexes of the map and the changelog are held from the first access to the last. The
-- Boolean is the result.
unfoldable pub server_tick : Rng → Server → Outcome (Server × Bool)
server_tick rng self = do
  (manager, ctx) ←
      player_manager_for_each self.player_manager (server_tick_process_player rng) (start_data self)
  let ctx = if ctx.player_died then clear_all_dead ctx else ctx
  ctx ← spawn_fruits rng ctx.fruits_eaten ctx
  ok (
    record {
      changelog = ctx.changelog;
      map = ctx.map;
      player_manager = manager;
      ticker = ticker_tick self.ticker;
      game_ended = self.game_ended;
      player_data_cache = ctx.player_data_cache;
      seed = ctx.seed;
    },
    not ctx.no_player_alive,
  )

unfoldable pub server_end_game : Server → Server
server_end_game self = record self { game_ended = true; ticker = ticker_tick self.ticker }
