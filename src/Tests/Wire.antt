-- ===== src/Tests/Wire.antt =====
-- The theorems on the messages, over a socket that is a list of bytes.
use snake_posix.Common.{ℕ, zero, suc, ◌+◌, ◌≡◌, refl, ap, arith, some, List, [], ◌∷◌, ◌++◌}
use snake_posix.Common.{length, take, drop, replicate}
use snake_posix.Common.Outcome.{ok}
use snake_posix.Geometry.{left}
use snake_posix.Map.{tile_fruit}
use snake_posix.Player.{player_paused}
use snake_posix.Socket.{Socket}
use snake_posix.Socket.Bytes.{take-length, drop-length}
use snake_posix.Socket.Message.{SocketMessageMap, message_map, message_player_state}
use snake_posix.Socket.Encode.{
  socket_message_serialize, calculate_data_buffer_size, serialize_data,
  length-socket_message_serialize,
}
use snake_posix.Socket.Decode.{socket_message_deserialize_from_socket}
use snake_posix.Socket.Tiles.{FitsTile}
use snake_posix.Socket.Whole.{Whole}
use snake_posix.Socket.Roundtrip.{deserialize-serialize}
use snake_posix.Tests.{body}

abbrev list_socket : Socket
list_socket = record {
  Fd = List ℕ;
  read = λ n fd. (some (take n fd), drop n fd);
  write = λ bytes fd. (some (length bytes), fd ++ bytes);
  memory = λ n. replicate n 255;
}

length-replicate : (n : ℕ) → length {A = ℕ} (replicate n 255) ≡ n
length-replicate zero = refl
length-replicate (suc n) = ap suc (length-replicate n)

list_Whole : Whole list_socket (λ fd bytes. fd ≡ bytes)
list_Whole = record {
  whole = λ fd bytes rest some_bytes h. (
    rest,
    rw (h, take-length bytes rest (length bytes) refl, drop-length bytes rest (length bytes) refl)
        refl,
    refl,
  );
  memory_size = length-replicate;
}

abbrev two_tiles : SocketMessageMap
two_tiles = record {
  width = 2;
  height = 1;
  tiles = body 3 9 ∷ record { order = 0; type = tile_fruit; player = 0 } ∷ [];
}

body-FitsTile : FitsTile (body 3 9)
body-FitsTile = record { order = omega arith; type = omega arith; player = omega arith }

fruit_FitsTile : FitsTile (record { order = 0; type = tile_fruit; player = 0 })
fruit_FitsTile = record { order = omega arith; type = omega arith; player = omega arith }

deserialize-serialize_example :
    (fd' : List ℕ) × (socket_message_deserialize_from_socket list_socket
        (socket_message_serialize (message_map two_tiles) ++ (7 ∷ []))
      ≡ ok (some (message_map two_tiles), fd'))
    × (fd' ≡ 7 ∷ [])
deserialize-serialize_example =
    deserialize-serialize list_Whole (message_map two_tiles)
      (socket_message_serialize (message_map two_tiles) ++ (7 ∷ [])) (7 ∷ [])
      (omega arith, omega arith, refl, (body-FitsTile, (fruit_FitsTile, tt))) refl

length-socket_message_serialize_example :
    length (socket_message_serialize (message_map two_tiles))
    ≡ 1 + calculate_data_buffer_size (message_map two_tiles)
length-socket_message_serialize_example =
    length-socket_message_serialize (message_map two_tiles) refl

-- The bytes of a state of a player.
player_state_bytes :
    socket_message_serialize (message_player_state player_paused left) ≡ 5 ∷ 2 ∷ 1 ∷ []
unfolding socket_message_serialize serialize_data
player_state_bytes = refl
