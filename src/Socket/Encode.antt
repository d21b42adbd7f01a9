-- ===== src/Socket/Encode.antt =====
-- `socket_message_serialize` and the size of its buffer.
use snake_posix.Common.{ℕ, ◌+◌, ◌*◌, ◌%◌, ◌≡◌, refl, ◌∙◌, arith, Bool, List, [], ◌∷◌, ◌++◌}
use snake_posix.Common.{length, length-append, take, mul32}
use snake_posix.Geometry.{direction_code}
use snake_posix.Map.{MapTile, tile_code}
use snake_posix.Player.{status_code}
use snake_posix.Socket.{Socket, socket_write}
use snake_posix.Common.Outcome.{Outcome}
use snake_posix.Socket.Bytes.{le_bytes, length-le_bytes, take_self}
use snake_posix.Socket.Message.{
  SocketMessage, SocketMessageMap, message_magic_bytes, message_game_full, message_connected,
  message_map, message_tile_change, message_player_state, message_direction, message_disconnect,
  message_game_end, message_pause, message_unpause, message_respawn, type_code,
}

-- `sizeof(size_t) + 1 + sizeof(player_id_t)`
abbrev pub size_per_tile : ℕ
size_per_tile = 11

-- The product of the sizes is computed in `coordinate_t`.
unfoldable pub calculate_data_buffer_size : SocketMessage → ℕ
calculate_data_buffer_size (message_magic_bytes b0 b1 b2 b3) = 4
calculate_data_buffer_size (message_map map_data) =
    8 + mul32 map_data.width map_data.height * size_per_tile
calculate_data_buffer_size (message_tile_change row column tile) = 8 + size_per_tile
calculate_data_buffer_size (message_player_state status direction) = 2
calculate_data_buffer_size (message_direction direction) = 1
calculate_data_buffer_size _ = 0

-- A cast to `char`, as the byte that it stores.
abbrev pub byte : ℕ → ℕ
byte x = x % 256

unfoldable pub serialize_map_tile : MapTile → List ℕ
serialize_map_tile tile =
    le_bytes 8 tile.order ++ (byte (tile_code tile.type) ∷ le_bytes 2 tile.player)

unfoldable pub serialize_tiles : List MapTile → List ℕ
serialize_tiles [] = []
serialize_tiles (t ∷ ts) = serialize_map_tile t ++ serialize_tiles ts

unfoldable pub serialize_map : SocketMessageMap → List ℕ
serialize_map map_data =
    le_bytes 4 map_data.width
    ++ (le_bytes 4 map_data.height
        ++ serialize_tiles (take (mul32 map_data.width map_data.height) map_data.tiles))

-- What follows the byte of the type.
unfoldable pub serialize_data : SocketMessage → List ℕ
serialize_data (message_magic_bytes b0 b1 b2 b3) = b0 ∷ b1 ∷ b2 ∷ b3 ∷ []
serialize_data (message_map map_data) = serialize_map map_data
serialize_data (message_tile_change row column tile) =
    le_bytes 4 row ++ (le_bytes 4 column ++ serialize_map_tile tile)
serialize_data (message_player_state status direction) =
    byte (status_code status) ∷ byte (direction_code direction) ∷ []
serialize_data (message_direction direction) = byte (direction_code direction) ∷ []
serialize_data _ = []

unfoldable pub socket_message_serialize : SocketMessage → List ℕ
socket_message_serialize self = byte (type_code self) ∷ serialize_data self

unfoldable pub socket_message_serialize_to_socket :
    (s : Socket) → SocketMessage → s.Fd → Outcome (Bool × s.Fd)
socket_message_serialize_to_socket s self fd = socket_write s (socket_message_serialize self) fd

pub length-serialize_map_tile : (t : MapTile) → length (serialize_map_tile t) ≡ size_per_tile
unfolding serialize_map_tile
length-serialize_map_tile t =
    length-append (le_bytes 8 t.order) _
    ∙ omega (arith, length-le_bytes 8 t.order, length-le_bytes 2 t.player)

pub length-serialize_tiles :
    (l : List MapTile) → length (serialize_tiles l) ≡ length l * size_per_tile
unfolding serialize_tiles
length-serialize_tiles [] = refl
length-serialize_tiles (t ∷ ts) = omega (
  arith,
  length-append (serialize_map_tile t) (serialize_tiles ts),
  length-serialize_map_tile t,
  length-serialize_tiles ts,
)

-- A map message has a tile for each cell; other messages have no condition.
abbrev pub HasTiles : SocketMessage → Type 0
HasTiles (message_map map_data) = length map_data.tiles ≡ mul32 map_data.width map_data.height
HasTiles _ = Unit

length-serialize_map :
    (d : SocketMessageMap)
    → length d.tiles ≡ mul32 d.width d.height
    → length (serialize_map d) ≡ 8 + mul32 d.width d.height * size_per_tile
unfolding serialize_map
length-serialize_map d h = rw (take_self d.tiles (mul32 d.width d.height) h) (
    omega (
      arith,
      length-append (le_bytes 4 d.width) (le_bytes 4 d.height ++ serialize_tiles d.tiles),
      length-append (le_bytes 4 d.height) (serialize_tiles d.tiles),
      length-le_bytes 4 d.width,
      length-le_bytes 4 d.height,
      length-serialize_tiles d.tiles,
    ))

-- A message whose map, if it has one, has a tile for each cell fills its buffer exactly, and no byte
-- is written behind it.
pub length-socket_message_serialize :
    (m : SocketMessage)
    → HasTiles m
    → length (socket_message_serialize m) ≡ 1 + calculate_data_buffer_size m
unfolding socket_message_serialize calculate_data_buffer_size serialize_data
length-socket_message_serialize (message_magic_bytes b0 b1 b2 b3) h = refl
length-socket_message_serialize message_game_full h = refl
length-socket_message_serialize message_connected h = refl
length-socket_message_serialize (message_map d) h = omega (arith, length-serialize_map d h)
length-socket_message_serialize (message_tile_change row column tile) h = omega (
  arith,
  length-append (le_bytes 4 row) (le_bytes 4 column ++ serialize_map_tile tile),
  length-append (le_bytes 4 column) (serialize_map_tile tile),
  length-le_bytes 4 row,
  length-le_bytes 4 column,
  length-serialize_map_tile tile,
)
length-socket_message_serialize (message_player_state status direction) h = refl
length-socket_message_serialize (message_direction direction) h = refl
length-socket_message_serialize message_disconnect h = refl
length-socket_message_serialize message_game_end h = refl
length-socket_message_serialize message_pause h = refl
length-socket_message_serialize message_unpause h = refl
length-socket_message_serialize message_respawn h = refl
