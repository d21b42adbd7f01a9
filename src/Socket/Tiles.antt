-- ===== src/Socket/Tiles.antt =====
-- The bytes of a tile and of an array of tiles, read again.
use snake_posix.Common.{ℕ, ◌^◌, ◌<◌, ◌≡◌, refl, ap, ◌∙◌, arith, List, [], ◌∷◌, ◌++◌}
use snake_posix.Common.{length, take, drop}
use snake_posix.Map.{MapTile, tile_code, tile_type_of_code, tile_type_of_code-tile_code}
use snake_posix.Socket.Bytes.{
  of_le, le_bytes, of_le-le_bytes, length-le_bytes, take-length, drop-length, byte_bound,
}
use snake_posix.Socket.Encode.{
  size_per_tile, byte, serialize_map_tile, length-serialize_map_tile, serialize_tiles,
}
use snake_posix.Socket.Decode.{enum_of_char, deserialize_map_tile, deserialize_tiles}

-- The fields of a tile fit their types, and the type its byte, as a non-negative `char`.
pub record FitsTile (t : MapTile) : Type 0 where
  pub order : t.order < 2 ^ 64
  pub type : tile_code t.type < 128
  pub player : t.player < 2 ^ 16

pub append_assoc : (xs ys zs : List ℕ) → (xs ++ ys) ++ zs ≡ xs ++ (ys ++ zs)
append_assoc [] ys zs = refl
append_assoc (x ∷ xs) ys zs = ap (λ l. x ∷ l) (append_assoc xs ys zs)

-- A number is read from the first bytes of a buffer, and the rest is left.
pub of_le-take :
    (n x : ℕ) (rest : List ℕ) → x < byte_bound n → of_le (take n (le_bytes n x ++ rest)) ≡ x
of_le-take n x rest h =
    ap of_le (take-length (le_bytes n x) rest n (length-le_bytes n x)) ∙ of_le-le_bytes n x h

pub drop-le_bytes : (n x : ℕ) (rest : List ℕ) → drop n (le_bytes n x ++ rest) ≡ rest
drop-le_bytes n x rest = drop-length (le_bytes n x) rest n (length-le_bytes n x)

-- A code below 128 keeps its value as a `char`.
pub enum_of_char-byte : (k : ℕ) → k < 128 → enum_of_char (byte k) ≡ k
enum_of_char-byte k h = ground arith

pub deserialize-serialize_map_tile :
    (t : MapTile) (rest : List ℕ)
    → FitsTile t
    → deserialize_map_tile (serialize_map_tile t ++ rest) ≡ t
unfolding deserialize_map_tile serialize_map_tile byte_bound
deserialize-serialize_map_tile t rest f =
    let tail = byte (tile_code t.type) ∷ (le_bytes 2 t.player ++ rest) in
    let split =
      append_assoc (le_bytes 8 t.order) (byte (tile_code t.type) ∷ le_bytes 2 t.player) rest in
    let order = of_le-take 8 t.order tail f.order in
    let moved = drop-le_bytes 8 t.order tail in
    let type =
      ap tile_type_of_code (enum_of_char-byte (tile_code t.type) f.type)
      ∙ tile_type_of_code-tile_code t.type in
    let player = of_le-take 2 t.player rest f.player in rw (split, moved, order, type, player) refl

-- Every tile of an array fits.
abbrev pub AllFit : List MapTile → Type 0
AllFit [] = Unit
AllFit (t ∷ ts) = FitsTile t × AllFit ts

pub deserialize-serialize_tiles :
    (l : List MapTile) → AllFit l → deserialize_tiles (length l) (serialize_tiles l) ≡ l
unfolding deserialize_tiles serialize_tiles
deserialize-serialize_tiles [] f = refl
deserialize-serialize_tiles (t ∷ ts) f =
    rw
      (
        deserialize-serialize_map_tile t (serialize_tiles ts) f.0,
        drop-length (serialize_map_tile t) (serialize_tiles ts) size_per_tile
            (length-serialize_map_tile t),
        deserialize-serialize_tiles ts f.1,
      )
      refl
