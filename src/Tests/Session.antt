-- ===== src/Tests/Session.antt =====
-- The theorems on what a client shows and what it may change.
use snake_posix.Common.{◌≡◌, refl, arith, true, false}
use snake_posix.Common.Outcome.{Ensures}
use snake_posix.Geometry.{up, left}
use snake_posix.Map.Neighbors.{tile_at}
use snake_posix.Player.{Player, player_not_connected, player_playing, player_dead}
use snake_posix.Server.Turn.{server_tick}
use snake_posix.Socket.Message.{
  message_pause, socket_message_init_map, socket_message_deserialize_to_map,
}
use snake_posix.Socket.View.{deserialize_to_map-init_map}
use snake_posix.Client.{SocketClient, client_playing, client_run}
use snake_posix.Connection.{ClientConnection, receive, tick_messages}
use snake_posix.Connection.Receive.{Received, receive-Received}
use snake_posix.Connection.View.{after, run-tick_messages, server_tick-client_run}
use snake_posix.Tests.{counting_rng, at, snake_map, dirty_server}
use snake_posix.Tests.Play.{joined, joined-Ready, corner}

abbrev shown : SocketClient
shown = record {
  state = client_playing;
  map = joined.map;
  last_status = player_not_connected;
  last_direction = up;
}

abbrev playing : Player
playing = record { status = player_playing; direction = left }

abbrev joining : Player
joining = record { status = player_dead; direction = up }

server_tick-client_run_example : Ensures (server_tick counting_rng joined) (λ r.
    tile_at
      (client_run shown (tick_messages true joining playing 1 r.0.map r.0.changelog)).map
      (at 0 0)
    ≡ tile_at r.0.map (at 0 0))
server_tick-client_run_example =
    server_tick-client_run counting_rng joined shown true joining playing (at 0 0) joined-Ready refl
      corner refl

run-tick_messages_example :
    (client_run shown (tick_messages false joining playing 3 snake_map dirty_server.changelog)).map
    ≡ after 3 snake_map dirty_server.changelog joined.map
run-tick_messages_example =
    run-tick_messages shown false joining playing 3 snake_map dirty_server.changelog refl

deserialize_to_map-init_map_example :
    (tile_at
        (socket_message_deserialize_to_map (socket_message_init_map snake_map) dirty_server.map)
        (at 1 2)
      ≡ tile_at snake_map (at 1 2))
    × ((socket_message_deserialize_to_map
          (socket_message_init_map snake_map)
          dirty_server.map).width
        ≡ 4)
    × ((socket_message_deserialize_to_map
          (socket_message_init_map snake_map)
          dirty_server.map).height
        ≡ 2)
deserialize_to_map-init_map_example =
    deserialize_to_map-init_map snake_map dirty_server.map (at 1 2) (omega arith, omega arith)

abbrev connection : ClientConnection
connection = record { shutdown = false; player_id = 6 }

receive-Received_example :
    Received connection dirty_server.player_manager message_pause
      (receive connection dirty_server.player_manager message_pause)
receive-Received_example = receive-Received connection dirty_server.player_manager message_pause
