-- ===== src/Socket/Decode.antt =====
-- `socket_message_deserialize_from_socket` and its parts.
use snake_posix.Common.{
  ℕ, zero, suc, ◌+◌, ◌*◌, ◌==◌, ltb, if◌then◌else◌, Option, none, some, List, [], ◌∷◌,
}
use snake_posix.Common.{take, drop, get_or, mul32}
use snake_posix.Common.Outcome.{Outcome, ok, ◌>>=◌}
use snake_posix.Geometry.{direction_of_code}
use snake_posix.Map.{MapTile, tile_type_of_code}
use snake_posix.Player.{status_of_code}
use snake_posix.Socket.{Socket, socket_read}
use snake_posix.Socket.Bytes.{of_le}
use snake_posix.Socket.Encode.{size_per_tile}
use snake_posix.Socket.Message.{
  SocketMessage, message_magic_bytes, message_game_full, message_connected, message_map,
  message_tile_change, message_player_state, message_direction, message_disconnect,
  message_game_end, message_pause, message_unpause, message_respawn,
}

-- A `char`, which is signed, cast to an enumeration, which is an `unsigned int`.
abbrev pub enum_of_char : ℕ → ℕ
enum_of_char b = if ltb b 128 then b else b + 4294967040

-- The byte at an index of a buffer.
abbrev pub byte_at : List ℕ → ℕ → ℕ
byte_at buffer i = get_or (drop i buffer) 0 0

unfoldable pub deserialize_map_tile : List ℕ → MapTile
deserialize_map_tile buffer =
    let buffer1 = drop 8 buffer in
    let buffer2 = drop 1 buffer1 in
    record {
      order = of_le (take 8 buffer);
      type = tile_type_of_code (enum_of_char (byte_at buffer1 0));
      player = of_le (take 2 buffer2);
    }

-- The loop over the tiles; each step moves on by the size of a tile.
unfoldable pub deserialize_tiles : ℕ → List ℕ → List MapTile
deserialize_tiles zero buffer = []
deserialize_tiles (suc n) buffer =
    deserialize_map_tile buffer ∷ deserialize_tiles n (drop size_per_tile buffer)

-- The messages that are their type alone; other types are not in the enumeration.
unfoldable pub bare_message : ℕ → Option SocketMessage
bare_message k =
    if k == 1
    then some message_game_full
    else (if k == 2
        then some message_connected
        else (if k == 7
            then some message_disconnect
            else (if k == 8
                then some message_game_end
                else (if k == 9
                    then some message_pause
                    else (if k == 10
                        then some message_unpause
                        else (if k == 11 then some message_respawn else none))))))

module _ (s : Socket) where
  -- A read that fails ends the function with false.
  abbrev pub reading :
      ℕ
      → (List ℕ → s.Fd → Outcome (Option SocketMessage × s.Fd))
      → s.Fd
      → Outcome (Option SocketMessage × s.Fd)
  reading n use_buffer fd = socket_read s n fd >>= λ (result, fd'). elim result [
    | none ↦ ok (none, fd')
    | some buffer ↦ use_buffer buffer fd'
  ]

  unfoldable pub deserialize_magic_bytes : s.Fd → Outcome (Option SocketMessage × s.Fd)
  deserialize_magic_bytes = reading 4 (λ b fd.
      ok (some (message_magic_bytes (byte_at b 0) (byte_at b 1) (byte_at b 2) (byte_at b 3)), fd))

  -- What follows the dimensions of a map.
  unfoldable pub deserialize_map_tiles : ℕ → ℕ → s.Fd → Outcome (Option SocketMessage × s.Fd)
  deserialize_map_tiles width height =
      let count = mul32 width height in
      reading (count * size_per_tile) (λ b fd. ok (
        some (
            message_map
              (record { width = width; height = height; tiles = deserialize_tiles count b })),
        fd,
      ))

  unfoldable pub deserialize_map : s.Fd → Outcome (Option SocketMessage × s.Fd)
  deserialize_map = reading 8 (λ dimensions.
      deserialize_map_tiles (of_le (take 4 dimensions)) (of_le (take 4 (drop 4 dimensions))))

  unfoldable pub deserialize_tile_change : s.Fd → Outcome (Option SocketMessage × s.Fd)
  deserialize_tile_change = reading 19 (λ b fd. ok (
    some (
        message_tile_change (of_le (take 4 b)) (of_le (take 4 (drop 4 b)))
          (deserialize_map_tile (drop 8 b))),
    fd,
  ))

  unfoldable pub deserialize_player_state : s.Fd → Outcome (Option SocketMessage × s.Fd)
  deserialize_player_state = reading 2 (λ b fd. ok (
    some (
        message_player_state (status_of_code (enum_of_char (byte_at b 0)))
          (direction_of_code (enum_of_char (byte_at b 1)))),
    fd,
  ))

  unfoldable pub deserialize_direction : s.Fd → Outcome (Option SocketMessage × s.Fd)
  deserialize_direction =
      reading 1
        (λ b fd. ok (some (message_direction (direction_of_code (enum_of_char (byte_at b 0)))), fd))

  -- The tests on the type, in their order.
  unfoldable pub deserialize_data : ℕ → s.Fd → Outcome (Option SocketMessage × s.Fd)
  deserialize_data k fd =
      if ltb 11 k
      then ok (none, fd)
      else (if k == 0
          then deserialize_magic_bytes fd
          else (if k == 3
              then deserialize_map fd
              else (if k == 4
                  then deserialize_tile_change fd
                  else (if k == 5
                      then deserialize_player_state fd
                      else (if k == 6
                          then deserialize_direction fd
                          else ok (bare_message k, fd))))))

  unfoldable pub socket_message_deserialize_from_socket :
      s.Fd → Outcome (Option SocketMessage × s.Fd)
  socket_message_deserialize_from_socket =
      reading 1 (λ b fd. deserialize_data (enum_of_char (byte_at b 0)) fd)
