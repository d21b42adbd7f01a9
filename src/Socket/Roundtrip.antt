-- ===== src/Socket/Roundtrip.antt =====
-- `socket_message_serialize` followed by `socket_message_deserialize_from_socket`, where each read
-- gives all bytes that it asks for.
use snake_posix.Common.{
  ℕ, ◌*◌, ◌^◌, ◌<◌, ◌≡◌, refl, sym, ap, ◌∙◌, subst, arith, some, List, [], ◌∷◌, ◌++◌,
}
use snake_posix.Common.{length, length-append, take, drop, mul32}
use snake_posix.Geometry.{Direction, direction_code, direction_of_code-direction_code}
use snake_posix.Map.{MapTile}
use snake_posix.Player.{PlayerStatus, status_code, status_of_code-status_code}
use snake_posix.Socket.Bytes.{
  of_le, le_bytes, of_le-le_bytes, length-le_bytes, drop-length, take_self, byte_bound,
}
use snake_posix.Socket.Tiles.{
  FitsTile, AllFit, append_assoc, of_le-take, drop-le_bytes, enum_of_char-byte,
  deserialize-serialize_map_tile, deserialize-serialize_tiles,
}
use snake_posix.Socket.Message.{
  SocketMessage, SocketMessageMap, message_magic_bytes, message_game_full, message_connected,
  message_map, message_tile_change, message_player_state, message_direction, message_disconnect,
  message_game_end, message_pause, message_unpause, message_respawn, type_code,
}
use snake_posix.Socket.Encode.{
  size_per_tile, byte, serialize_map_tile, length-serialize_map_tile, length-serialize_tiles,
  serialize_tiles, serialize_map, serialize_data, socket_message_serialize,
}
use snake_posix.Socket.Decode.{
  enum_of_char, byte_at, bare_message, deserialize_map_tile, deserialize_tiles,
  deserialize_magic_bytes, deserialize_map_tiles, deserialize_map, deserialize_tile_change,
  deserialize_player_state, deserialize_direction, deserialize_data,
  socket_message_deserialize_from_socket,
}
use snake_posix.Common.Outcome.{ok}
use snake_posix.Socket.{Socket}
use snake_posix.Socket.Whole.{Whole, Read, append_nil, reading_lem, Read-once}

-- What a message must be to be read back: numbers fit their types, codes their byte as a
-- non-negative `char`, and a map has a tile for each cell.
abbrev pub FitsMessage : SocketMessage → Type 0
FitsMessage (message_map d) =
    (d.width < 2 ^ 32)
    × (d.height < 2 ^ 32)
    × (length d.tiles ≡ mul32 d.width d.height)
    × AllFit d.tiles
FitsMessage (message_tile_change row column tile) =
    (row < 2 ^ 32) × (column < 2 ^ 32) × FitsTile tile
FitsMessage (message_player_state status direction) =
    (status_code status < 128) × (direction_code direction < 128)
FitsMessage (message_direction direction) = direction_code direction < 128
FitsMessage _ = Unit

length-two_numbers : (x y : ℕ) → length (le_bytes 4 x ++ le_bytes 4 y) ≡ 8
length-two_numbers x y =
    omega
      (arith, length-append (le_bytes 4 x) (le_bytes 4 y), length-le_bytes 4 x, length-le_bytes 4 y)

drop-two_numbers :
    (x y : ℕ) (rest : List ℕ) → drop 8 (le_bytes 4 x ++ (le_bytes 4 y ++ rest)) ≡ rest
drop-two_numbers x y rest =
    ap (drop 8) (sym (append_assoc (le_bytes 4 x) (le_bytes 4 y) rest))
    ∙ drop-length (le_bytes 4 x ++ le_bytes 4 y) rest 8 (length-two_numbers x y)

module _ {s : Socket} {Waits : s.Fd → List ℕ → Type 0} (w : Whole s Waits) where
  tile_change-Read :
      (row column : ℕ) (tile : MapTile) (fd : s.Fd) (rest : List ℕ)
      → FitsMessage (message_tile_change row column tile)
      → Waits fd (serialize_data (message_tile_change row column tile) ++ rest)
      → Read w fd (deserialize_tile_change s fd) (message_tile_change row column tile) rest
  unfolding deserialize_tile_change serialize_data byte_bound
  tile_change-Read row column tile fd rest (r, c, t) h =
      let tail = serialize_map_tile tile in
      let bytes = le_bytes 4 row ++ (le_bytes 4 column ++ tail) in
      let plain : deserialize_map_tile tail ≡ tile =
        ap deserialize_map_tile (sym (append_nil tail))
        ∙ deserialize-serialize_map_tile tile [] t in
      Read-once w 19 _ _ fd bytes rest
        (omega (
          arith,
          length-append (le_bytes 4 row) (le_bytes 4 column ++ tail),
          length-append (le_bytes 4 column) tail,
          length-le_bytes 4 row,
          length-le_bytes 4 column,
          length-serialize_map_tile tile,
        ))
        (rw
          (
            of_le-take 4 row (le_bytes 4 column ++ tail) r,
            drop-le_bytes 4 row (le_bytes 4 column ++ tail),
            of_le-take 4 column tail c,
            drop-two_numbers row column tail,
            plain,
          )
          refl)
        h

  player_state-Read :
      (status : PlayerStatus) (direction : Direction) (fd : s.Fd) (rest : List ℕ)
      → FitsMessage (message_player_state status direction)
      → Waits fd (serialize_data (message_player_state status direction) ++ rest)
      → Read w fd (deserialize_player_state s fd) (message_player_state status direction) rest
  unfolding deserialize_player_state serialize_data
  player_state-Read status direction fd rest (f, g) h =
      Read-once w 2 _ _ fd (byte (status_code status) ∷ byte (direction_code direction) ∷ []) rest
        refl
        (rw
          (
            enum_of_char-byte (status_code status) f,
            enum_of_char-byte (direction_code direction) g,
            status_of_code-status_code status,
            direction_of_code-direction_code direction,
          )
          refl)
        h

  direction-Read :
      (direction : Direction) (fd : s.Fd) (rest : List ℕ)
      → FitsMessage (message_direction direction)
      → Waits fd (serialize_data (message_direction direction) ++ rest)
      → Read w fd (deserialize_direction s fd) (message_direction direction) rest
  unfolding deserialize_direction serialize_data
  direction-Read direction fd rest g h =
      Read-once w 1 _ _ fd (byte (direction_code direction) ∷ []) rest refl
        (rw
          (
            enum_of_char-byte (direction_code direction) g,
            direction_of_code-direction_code direction,
          )
          refl)
        h

  map-Read :
      (d : SocketMessageMap) (fd : s.Fd) (rest : List ℕ)
      → FitsMessage (message_map d)
      → Waits fd (serialize_data (message_map d) ++ rest)
      → Read w fd (deserialize_map s fd) (message_map d) rest
  unfolding deserialize_map deserialize_map_tiles serialize_data serialize_map byte_bound
  map-Read d fd rest (fw, fh, n, t) waits =
      let count = mul32 d.width d.height in
      let head = le_bytes 4 d.width ++ le_bytes 4 d.height in
      let tail = serialize_tiles d.tiles in
      let stored : serialize_map d ≡ le_bytes 4 d.width ++ (le_bytes 4 d.height ++ tail) =
        ap (λ l. le_bytes 4 d.width ++ (le_bytes 4 d.height ++ serialize_tiles l))
          (take_self d.tiles count n) in
      let placed : serialize_map d ++ rest ≡ head ++ (tail ++ rest) =
        ap (λ l. l ++ rest)
          (stored ∙ sym (append_assoc (le_bytes 4 d.width) (le_bytes 4 d.height) tail))
        ∙ append_assoc head tail rest in
      let width = of_le-take 4 d.width (le_bytes 4 d.height) fw in
      let second = drop-le_bytes 4 d.width (le_bytes 4 d.height) in
      let height =
        ap (λ l. of_le (take 4 l)) second
        ∙ ap of_le (take_self (le_bytes 4 d.height) 4 (length-le_bytes 4 d.height))
        ∙ of_le-le_bytes 4 d.height fh in
      let tiles =
        subst (λ k. deserialize_tiles k tail ≡ d.tiles) n (deserialize-serialize_tiles d.tiles t) in
      reading_lem w 8 (λ b. deserialize_map_tiles s (of_le (take 4 b)) (of_le (take 4 (drop 4 b))))
        (message_map d) fd head (tail ++ rest) rest (length-two_numbers d.width d.height)
        (subst (Waits fd) placed waits)
        (λ fd' h'.
          subst (λ o. Read w fd' o (message_map d) rest)
            (sym (
              ap (λ x. deserialize_map_tiles s x (of_le (take 4 (drop 4 head))) fd') width
              ∙ ap (λ y. deserialize_map_tiles s d.width y fd') height))
            (Read-once w (count * size_per_tile)
              (λ b.
                message_map (record {
                  width = d.width;
                  height = d.height;
                  tiles = deserialize_tiles count b;
                }))
              (message_map d) fd' tail rest
              (length-serialize_tiles d.tiles ∙ ap (λ k. k * size_per_tile) n)
              (ap (λ l. message_map (record { width = d.width; height = d.height; tiles = l }))
                tiles)
              h'))

  data-Read :
      (m : SocketMessage) (fd : s.Fd) (rest : List ℕ)
      → FitsMessage m
      → Waits fd (serialize_data m ++ rest)
      → Read w fd (deserialize_data s (enum_of_char (byte (type_code m))) fd) m rest
  unfolding deserialize_data bare_message serialize_data Read deserialize_magic_bytes
  data-Read (message_magic_bytes b0 b1 b2 b3) fd rest f h =
      Read-once w 4
        (λ b. message_magic_bytes (byte_at b 0) (byte_at b 1) (byte_at b 2) (byte_at b 3))
        (message_magic_bytes b0 b1 b2 b3) fd (b0 ∷ b1 ∷ b2 ∷ b3 ∷ []) rest refl refl h
  data-Read message_game_full fd rest f h = (fd, refl, h)
  data-Read message_connected fd rest f h = (fd, refl, h)
  data-Read (message_map d) fd rest f h = map-Read d fd rest f h
  data-Read (message_tile_change row column tile) fd rest f h =
      tile_change-Read row column tile fd rest f h
  data-Read (message_player_state status direction) fd rest f h =
      player_state-Read status direction fd rest f h
  data-Read (message_direction direction) fd rest f h = direction-Read direction fd rest f h
  data-Read message_disconnect fd rest f h = (fd, refl, h)
  data-Read message_game_end fd rest f h = (fd, refl, h)
  data-Read message_pause fd rest f h = (fd, refl, h)
  data-Read message_unpause fd rest f h = (fd, refl, h)
  data-Read message_respawn fd rest f h = (fd, refl, h)

-- A message is read back from its bytes, and what follows them is left, over a socket whose reads
-- give all bytes that they ask for. The message's numbers fit their types, its codes are below 128,
-- and a map has a tile for each cell.
pub deserialize-serialize :
    {s : Socket} {Waits : s.Fd → List ℕ → Type 0}
    → Whole s Waits
    → (m : SocketMessage) (fd : s.Fd) (rest : List ℕ) → FitsMessage m
    → Waits fd (socket_message_serialize m ++ rest)
    → (fd' : s.Fd) × (socket_message_deserialize_from_socket s fd ≡ ok (some m, fd'))
      × Waits fd' rest
unfolding socket_message_deserialize_from_socket socket_message_serialize Read
deserialize-serialize {s} w m fd rest f h =
    reading_lem w 1 (λ b fd. deserialize_data s (enum_of_char (byte_at b 0)) fd) m fd
      (byte (type_code m) ∷ []) (serialize_data m ++ rest) rest refl h
      (λ fd' h'. data-Read w m fd' rest f h')
