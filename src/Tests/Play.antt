-- ===== src/Tests/Play.antt =====
-- The theorems on the players, the ticker and the server, at the start of a small game.
use snake_posix.Common.{ℕ, ◌≡◌, refl, ◌≢◌, arith, ◌==◌, some}
use snake_posix.Common.Outcome.{Ensures}
use snake_posix.Common.Loops.{for_range}
use snake_posix.Geometry.{up, left}
use snake_posix.Map.{MapTemplate, map_init_from_template, max_players}
use snake_posix.Map.Moves.{Inside}
use snake_posix.Map.Neighbors.{tile_at}
use snake_posix.Changelog.Replay.{entries, replay}
use snake_posix.Player.{
  player_joining, write_player, register_from, player_manager_init, player_manager_register,
  player_manager_pause, player_manager_unpause, player_manager_respawn, player_manager_unregister,
  player_manager_set_player_direction,
}
use snake_posix.Player.Lifecycle.{TickStep}
use snake_posix.Player.Registry.{
  Registered, register-Registered, to_pause, to_unpause, to_respawn, to_leave, Requested,
  requests-Requested,
}
use snake_posix.Ticker.{
  ticks, ticker_tick, ticker_observer_init, ticker_observer_wait_for_next_tick, wait-ticks,
}
use snake_posix.Server.Turn.{Server, server_tick}
use snake_posix.Server.Passed.{Ready, any_alive}
use snake_posix.Server.Tick.{
  server_tick-Ready, server_tick-replay, server_tick-TickStep, server_tick-result,
}
use snake_posix.Server.Start.{
  IsTemplate, game_state_init, game_state_init-Ready, start, further, register, pause,
  Reachable-Ready,
}
use snake_posix.Tests.{counting_rng, at, dirty_server}

abbrev pub small : MapTemplate
small = record { walls = λ r c. r == 1; width = 3; height = 2 }

abbrev small_IsTemplate : IsTemplate small
small_IsTemplate = record {
  tall = omega arith;
  wide = omega arith;
  height_fits = omega arith;
  width_fits = omega arith;
  area_fits = omega arith;
}

abbrev pub game : Server
game = game_state_init dirty_server small

game_state_init-Ready_example : Ready game
game_state_init-Ready_example = game_state_init-Ready dirty_server small small_IsTemplate

game-Ready : Ready game
game-Ready = game_state_init-Ready dirty_server small small_IsTemplate

Reachable-Ready_example :
    Ready (record game { player_manager = player_manager_pause game.player_manager 2 })
Reachable-Ready_example =
    Reachable-Ready counting_rng game
      (record game { player_manager = player_manager_pause game.player_manager 2 }) game-Ready
      (further game _ start (pause game 2))

-- The game after its first player has come.
abbrev pub joined : Server
joined = record game {
  player_manager =
      write_player game.player_manager 0 (record { status = player_joining; direction = up });
}

first_place : player_manager_register game.player_manager ≡ some (0, joined.player_manager)
unfolding player_manager_register register_from game_state_init player_manager_init for_range
first_place = refl

pub joined-Ready : Ready joined
joined-Ready =
    Reachable-Ready counting_rng game joined game-Ready
      (further game joined start (register game 0 joined.player_manager first_place))

pub corner : Inside joined.map (at 0 0)
unfolding game_state_init map_init_from_template for_range
corner = omega arith

server_tick-Ready_example : Ensures (server_tick counting_rng joined) (λ r. Ready r.0)
server_tick-Ready_example = server_tick-Ready counting_rng joined joined-Ready

server_tick-replay_example : Ensures (server_tick counting_rng joined) (λ r.
    (r.0.map.width ≡ joined.map.width)
    × (r.0.map.height ≡ joined.map.height)
    × (tile_at (replay joined.map (entries r.0.changelog)) (at 0 0) ≡ tile_at r.0.map (at 0 0)))
server_tick-replay_example = server_tick-replay counting_rng joined joined-Ready (at 0 0) corner

server_tick-TickStep_example :
    Ensures
      (server_tick counting_rng joined)
      (λ r. TickStep player_joining (r.0.player_manager.players 0).status)
server_tick-TickStep_example = server_tick-TickStep counting_rng joined joined-Ready 0 (omega arith)

server_tick-result_example : Ensures (server_tick counting_rng joined) (λ r.
    (r.1 ≡ any_alive max_players r.0.player_manager)
    × (r.0.ticker ≡ ticker_tick joined.ticker)
    × (r.0.game_ended ≡ joined.game_ended))
server_tick-result_example = server_tick-result counting_rng joined joined-Ready

register-Registered_example :
    Registered dirty_server.player_manager (player_manager_register dirty_server.player_manager)
register-Registered_example = register-Registered dirty_server.player_manager

requests-Requested_example :
    Requested to_pause dirty_server.player_manager 5
      (player_manager_pause dirty_server.player_manager 5)
    × Requested to_unpause dirty_server.player_manager 5
        (player_manager_unpause dirty_server.player_manager 5)
    × Requested to_respawn dirty_server.player_manager 5
        (player_manager_respawn dirty_server.player_manager 5)
    × Requested to_leave dirty_server.player_manager 5
        (player_manager_unregister dirty_server.player_manager 5)
    × ((player_manager_set_player_direction dirty_server.player_manager 5 left).players 5
        ≡ record (dirty_server.player_manager.players 5) { direction = left })
    × ((q : ℕ)
        → q ≢ 5
        → (player_manager_set_player_direction dirty_server.player_manager 5 left).players q
          ≡ dirty_server.player_manager.players q)
requests-Requested_example = requests-Requested dirty_server.player_manager 5 left

-- The counter wraps.
wait-ticks_example :
    ticker_observer_wait_for_next_tick
      (ticker_observer_init (record { tick = 18446744073709551615 }))
      (ticks 3 (record { tick = 18446744073709551615 }))
    ≡ some (3, ticker_observer_init (ticks 3 (record { tick = 18446744073709551615 })))
wait-ticks_example =
    wait-ticks 3 (record { tick = 18446744073709551615 }) (omega arith) (omega arith)
