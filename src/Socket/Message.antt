-- ===== src/Socket/Message.antt =====
-- `libsnake/socket/socket_message.{h,c}`: the messages, the functions that make them, and what a
-- client does with the message of a map.
use snake_posix.Common.{ℕ, zero, suc, ◌+◌, List, [], ◌∷◌, ◌++◌}
use snake_posix.Common.{get_or}
use snake_posix.Common.Loops.{for_range}
use snake_posix.Geometry.{Direction}
use snake_posix.Map.{Map, MapTile, tile_empty, map_get_tile_state, map_set_tile_state, map_init}
use snake_posix.Player.{PlayerStatus}

-- `socket_message_map_data_t`; `tiles` is the array of width times height tiles.
pub record SocketMessageMap : Type 0 where
  pub width : ℕ
  pub height : ℕ
  pub tiles : List MapTile

-- `socket_message_t`: the type with its data.
pub data SocketMessage : Type 0 where
  message_magic_bytes : (b0 b1 b2 b3 : ℕ) → SocketMessage
  message_game_full message_connected : SocketMessage
  message_map : SocketMessageMap → SocketMessage
  message_tile_change : (row column : ℕ) → MapTile → SocketMessage
  message_player_state : PlayerStatus → Direction → SocketMessage
  message_direction : Direction → SocketMessage
  message_disconnect message_game_end message_pause message_unpause message_respawn : SocketMessage

-- `socket_message_type_t`
abbrev pub type_code : SocketMessage → ℕ
type_code (message_magic_bytes b0 b1 b2 b3) = 0
type_code message_game_full = 1
type_code message_connected = 2
type_code (message_map map_data) = 3
type_code (message_tile_change row column tile) = 4
type_code (message_player_state status direction) = 5
type_code (message_direction direction) = 6
type_code message_disconnect = 7
type_code message_game_end = 8
type_code message_pause = 9
type_code message_unpause = 10
type_code message_respawn = 11

-- One row of tiles, and the rows in order: the array that the two loops fill.
unfoldable pub row_tiles : Map → ℕ → ℕ → ℕ → List MapTile
row_tiles map i j zero = []
row_tiles map i j (suc n) =
    map_get_tile_state map (record { row = i; column = j }) ∷ row_tiles map i (j + 1) n

unfoldable pub all_tiles : Map → ℕ → ℕ → List MapTile
all_tiles map i zero = []
all_tiles map i (suc n) = row_tiles map i 0 map.width ++ all_tiles map (i + 1) n

unfoldable pub socket_message_init_map : Map → SocketMessage
unfolding row_tiles all_tiles
socket_message_init_map map =
    message_map
      (record { width = map.width; height = map.height; tiles = all_tiles map 0 map.height })

-- What a read behind the end of a list gives, which does not happen.
abbrev pub no_tile : MapTile
no_tile = record { order = 0; type = tile_empty; player = 0 }

-- The body of the loops of `socket_message_deserialize_to_map`, with `index`.
abbrev pub write_next : List MapTile → ℕ → ℕ → ℕ × Map → ℕ × Map
write_next tiles i j (index, map) = (
  index + 1,
  map_set_tile_state map (record { row = i; column = j }) (get_or tiles index no_tile),
)

-- A message of another type leaves the map alone.
unfoldable pub socket_message_deserialize_to_map : SocketMessage → Map → Map
unfolding for_range
socket_message_deserialize_to_map (message_map map_data) map =
    (for_range map_data.height 0 (λ i. for_range map_data.width 0 (write_next map_data.tiles i))
      (0, map_init map map_data.width map_data.height)).1
socket_message_deserialize_to_map _ map = map
