-- ===== src/Client.antt =====
-- `client/socket_client.c`: what a client does with the messages of the server, and the messages
-- that it sends for a key.
pub mod Drawn
use package.snake_posix.Common.{
  ℕ, zero, suc, ◌+◌, ◌-◌, ◌*◌, ◌/◌, ◌%◌, ◌^◌, ◌≤◌, ◌<◌, ◌≡◌, refl, sym, ap, ◌∙◌, subst, ◌≢◌, ◌↔◌,
  ◌⊎◌, inl, inr, arith, Bool, true, false, not, ◌&&◌, ◌||◌, ◌==◌, ltb, leb, if◌then◌else◌, if_intro,
  Bool-cases, ==-refl, ==→≡, ==→≢, Option, none, some, Option-cases, List, [], ◌∷◌, ◌++◌,
}
use package.snake_posix.Geometry.{Direction, up, left, down, right, direction_eq}
use package.snake_posix.Map.{Map, map_set_tile_state}
use package.snake_posix.Player.{PlayerStatus, is_status}
use package.snake_posix.Renderer.{RendererCommand, command_redraw, command_update}
use package.snake_posix.ShmClient.{Key, key_arrow, key_escape, key_pause, key_unpause, key_respawn}
use package.snake_posix.Socket.Message.{
  SocketMessage, message_game_full, message_game_end, message_connected, message_map,
  message_tile_change, message_player_state, message_direction, message_pause, message_unpause,
  message_respawn, socket_message_deserialize_to_map,
}

-- `socket_client_state_t`
pub data SocketClientState : Type 0 where
  client_connecting client_playing client_connection_error client_full client_game_ended :
      SocketClientState

-- The local state of `socket_client_run`.
pub record SocketClient : Type 0 where
  pub state : SocketClientState
  pub map : Map
  pub last_status : PlayerStatus
  pub last_direction : Direction

abbrev pub is_running : SocketClientState → Bool
is_running client_connecting = true
is_running client_playing = true
is_running _ = false

-- The body of the loop, for a message that was received.
unfoldable pub client_receive : SocketClient → SocketMessage → SocketClient
client_receive self message_game_full = record self { state = client_full }
client_receive self message_game_end = record self { state = client_game_ended }
client_receive self message_connected = record self { state = client_playing }
client_receive self (message_map map_data) = record self {
  map = socket_message_deserialize_to_map (message_map map_data) self.map;
}
client_receive self (message_tile_change row column tile) = record self {
  map = map_set_tile_state self.map (record { row = row; column = column }) tile;
}
client_receive self (message_player_state status direction) = record self {
  last_status = status;
  last_direction = direction;
}
client_receive self _ = record self { state = client_connection_error }

-- The loop over the messages that come, while the user does not leave.
unfoldable pub client_run : SocketClient → List SocketMessage → SocketClient
client_run self [] = self
client_run self (m ∷ ms) =
    let next = client_run (client_receive self m) ms in if is_running self.state then next else self

-- The direction that an arrow key asks for, unless the snake would turn back.
unfoldable pub arrow_press : Direction → Direction → Option SocketMessage
arrow_press last_direction up =
    if direction_eq last_direction down then none else some (message_direction up)
arrow_press last_direction down =
    if direction_eq last_direction up then none else some (message_direction down)
arrow_press last_direction left =
    if direction_eq last_direction right then none else some (message_direction left)
arrow_press last_direction right =
    if direction_eq last_direction left then none else some (message_direction right)
arrow_press last_direction _ = none

-- The message for a key, by the callbacks that `socket_client_run` gives to `input_main`; escape ends
-- the loop of the client instead.
unfoldable pub socket_client_press : Direction → Key → Option SocketMessage
socket_client_press last_direction (key_arrow d) = arrow_press last_direction d
socket_client_press last_direction key_escape = none
socket_client_press last_direction key_pause = some message_pause
socket_client_press last_direction key_unpause = some message_unpause
socket_client_press last_direction key_respawn = some message_respawn

-- What the body of the loop asks the renderer for; the client has one map, at address 0.
unfoldable pub client_receive_commands : SocketClient → SocketMessage → List RendererCommand
client_receive_commands self (message_map map_data) = command_redraw 0 self.last_status ∷ []
client_receive_commands self (message_tile_change row column tile) =
    command_update row column tile ∷ []
client_receive_commands self (message_player_state status direction) =
    if is_status status self.last_status then [] else command_redraw 0 status ∷ []
client_receive_commands self _ = []
