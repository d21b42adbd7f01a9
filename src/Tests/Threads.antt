-- ===== src/Tests/Threads.antt =====
-- The two ends of a connection, and the handler that accepts it.
use snake_posix.Common.{◌+◌, ◌≡◌, refl, arith, true, false, none, some, List, [], ◌∷◌}
use snake_posix.Geometry.{up, left}
use snake_posix.Map.{map_set_tile_state}
use snake_posix.Map.Neighbors.{tile_at}
use snake_posix.Player.{player_joining, player_playing, player_not_connected, player_paused}
use snake_posix.Socket.Message.{SocketMessage, message_magic_bytes, message_tile_change}
use snake_posix.Client.{
  SocketClient, client_connecting, client_playing, client_run, client_receive, socket_client_press,
}
use snake_posix.Connection.{ClientConnection, Wake, send_loop, send_thread_messages}
use snake_posix.Tests.Walk.{walker, walker-Ready, walked, walker_ticked}
use snake_posix.Connection.Session.{
  Game, over, one_tick, some_ticks, client_run-send_thread_messages,
}
use snake_posix.Client.Drawn.{Follows, client_run-shown, Follows-Idle}
use snake_posix.Connection.Screen.{greeted, first_display, send_loop-shown}
use snake_posix.Renderer.{tile_cell}
use snake_posix.Renderer.Display.{Display, started}
use snake_posix.Renderer.Idle.{Idle}
use snake_posix.Tests.Screen.{
  cells_80, laws_80, new_queue, blank_screen, last_display, last_Reachable,
}
use snake_posix.Connection.Handler.{
  ClientConnectionHandler, accept_all, count_verified, Fits,
  client_connection_handler_verify_magic_bytes, accept_all-Fits,
}
use snake_posix.ShmClient.{ShmClient, key_pause, press}
use snake_posix.ShmClient.Same.{delivered, receive-press}
use snake_posix.Tests.{at, counting_rng, snake_map, dirty_server, body, blank_tile}
use snake_posix.Tests.Play.{joined, corner}

abbrev new_client : SocketClient
new_client = record {
  state = client_connecting;
  map = dirty_server.map;
  last_status = player_not_connected;
  last_direction = up;
}

abbrev missed : Wake
missed = record {
  ticks_passed = 2;
  player_state = record { status = player_playing; direction = left };
  map = joined.map;
  changelog = joined.changelog;
  stops = false;
  delivers = true;
}

abbrev seat : ShmClient
seat = record {
  player_id = 0;
  player_status = player_joining;
  last_player_direction = up;
  exit = false;
  shown = snake_map;
}

abbrev line : ClientConnection
line = record { shutdown = false; player_id = 0 }

receive-press_example :
    delivered line joined.player_manager (socket_client_press up key_pause)
    ≡ (press seat joined.player_manager key_pause).1
receive-press_example = receive-press seat line joined.player_manager refl refl key_pause refl

abbrev handler : ClientConnectionHandler
handler = record { connections = λ i. line; connections_size = 0; connections_capacity = 4 }

accept_all-Fits_example :
    Fits (accept_all handler (some (message_magic_bytes 42 37 13 31) ∷ none ∷ []))
    × ((accept_all handler (some (message_magic_bytes 42 37 13 31) ∷ none ∷ [])).connections_size
        ≡ 0 + count_verified (some (message_magic_bytes 42 37 13 31) ∷ none ∷ []))
unfolding count_verified client_connection_handler_verify_magic_bytes
accept_all-Fits_example =
    accept_all-Fits handler (some (message_magic_bytes 42 37 13 31) ∷ none ∷ [])
      (record { within = omega arith; least = omega arith; most = omega arith }) (omega arith)

abbrev drawing_client : SocketClient
drawing_client = record {
  state = client_playing;
  map = snake_map;
  last_status = player_playing;
  last_direction = up;
}

abbrev eaten : List SocketMessage
eaten = message_tile_change 1 2 (body 1 8) ∷ message_tile_change 0 3 blank_tile ∷ []

-- A state where nothing is left to do.
abbrev drawn_eaten :
    (t : Display cells_80) × Follows cells_80 drawing_client last_display eaten t × Idle cells_80 t
drawn_eaten = Follows-Idle cells_80 laws_80 eaten drawing_client last_display last_Reachable refl

client_run-shown_example :
    drawn_eaten.0.renderer.screen.front 3 2
    ≡ tile_cell ((client_run drawing_client eaten).map.tiles 1 2)
unfolding client_run client_receive map_set_tile_state
client_run-shown_example =
    client_run-shown cells_80 laws_80 eaten drawing_client last_display drawn_eaten.0 1 2
      last_Reachable refl drawn_eaten.1 drawn_eaten.2 (omega arith) (omega arith)
      (omega arith, omega arith)

abbrev told : Wake
told = record {
  ticks_passed = 1;
  player_state = record { status = player_paused; direction = left };
  map = walked.0.map;
  changelog = walked.0.changelog;
  stops = false;
  delivers = true;
}

-- A tick, and two that the thread has missed.
abbrev played : Game counting_rng walker (told ∷ missed ∷ []) joined
played =
    one_tick walker walker walked.0 joined walked.1 told.player_state (missed ∷ []) refl
      walker-Ready walker_ticked
      (some_ticks walked.0 joined joined 2 missed.player_state [] (omega arith) (over joined))

abbrev greeted_display : Display cells_80
greeted_display = first_display cells_80 new_client walker new_queue blank_screen

abbrev drawn_board :
    (t : Display cells_80) × Follows cells_80
      (greeted new_client walker)
      greeted_display
      (send_loop true told.player_state (told ∷ missed ∷ []))
      t
    × Idle cells_80 t
drawn_board =
    Follows-Idle cells_80 laws_80 (send_loop true told.player_state (told ∷ missed ∷ []))
      (greeted new_client walker) greeted_display
      (started new_queue blank_screen (greeted new_client walker).map 0 player_not_connected
        (λ p. refl) (λ x y. refl))
      refl

send_loop-shown_example : drawn_board.0.renderer.screen.front 1 1 ≡ tile_cell (joined.map.tiles 0 0)
send_loop-shown_example =
    send_loop-shown cells_80 laws_80 counting_rng new_client told.player_state walker joined
      (told ∷ missed ∷ []) new_queue blank_screen drawn_board.0 0 0 played (λ p. refl) (λ x y. refl)
      drawn_board.1 drawn_board.2 corner.0 corner.1 (omega arith, omega arith)

client_run-send_thread_messages_example :
    ((client_run new_client
        (send_thread_messages true walker.map told.player_state (told ∷ missed ∷ []) false)).state
      ≡ client_playing)
    × (tile_at
          (client_run new_client
            (send_thread_messages true walker.map told.player_state (told ∷ missed ∷ []) false)).map
          (at 0 0)
        ≡ tile_at joined.map (at 0 0))
client_run-send_thread_messages_example =
    client_run-send_thread_messages counting_rng new_client told.player_state walker joined
      (told ∷ missed ∷ []) (at 0 0) refl played corner
