-- ===== src/Socket/View.antt =====
-- `socket_message_init_map` followed by `socket_message_deserialize_to_map`.
use snake_posix.Common.{
  ℕ, zero, suc, ◌+◌, ◌*◌, ◌<◌, ◌≡◌, refl, sym, ap, ◌∙◌, ◌≢◌, ◌⊎◌, inl, inr, arith, ◌==◌, Bool-cases,
  List, [], ◌∷◌, ◌++◌,
}
use snake_posix.Common.{length, get_or}
use snake_posix.Common.Loops.{for_range, for_range_inv}
use snake_posix.Geometry.{Coordinates}
use snake_posix.Map.{Map, MapTile, map_get_tile_state, map_set_tile_state, map_init}
use snake_posix.Map.Moves.{Inside}
use snake_posix.Map.Neighbors.{tile_at}
use snake_posix.Map.Cells.{map_init_lem}
use snake_posix.Changelog.Replay.{tile_at-set}
use snake_posix.Socket.Message.{
  row_tiles, all_tiles, write_next, no_tile, socket_message_init_map,
  socket_message_deserialize_to_map,
}

abbrev at : ℕ → ℕ → Coordinates
at i j = record { row = i; column = j }

module _ (m : Map) where
  length-row_tiles : (i j n : ℕ) → length (row_tiles m i j n) ≡ n
  unfolding row_tiles
  length-row_tiles i j zero = refl
  length-row_tiles i j (suc n) = omega (arith, length-row_tiles i (j + 1) n)

  get_or-row_tiles :
      (i j n k : ℕ) (rest : List MapTile) (d : MapTile)
      → k < n
      → get_or (row_tiles m i j n ++ rest) k d ≡ tile_at m (at i (j + k))
  unfolding row_tiles map_get_tile_state
  get_or-row_tiles i j zero k rest d h = absurd (omega arith)
  get_or-row_tiles i j (suc n) zero rest d h =
      let e : j ≡ j + 0 = omega arith in ap (λ x. tile_at m (at i x)) e
  get_or-row_tiles i j (suc n) (suc k) rest d h =
      let e : j + 1 + k ≡ j + suc k = omega arith in
      get_or-row_tiles i (j + 1) n k rest d (omega arith) ∙ ap (λ x. tile_at m (at i x)) e

  get_or-behind :
      (xs ys : List MapTile) (k : ℕ) (d : MapTile)
      → get_or (xs ++ ys) (length xs + k) d ≡ get_or ys k d
  get_or-behind [] ys k d = let e : 0 + k ≡ k = omega arith in ap (λ x. get_or ys x d) e
  get_or-behind (x ∷ xs) ys k d =
      let e : suc (length xs) + k ≡ suc (length xs + k) = omega arith in
      ap (λ n. get_or (x ∷ (xs ++ ys)) n d) e ∙ get_or-behind xs ys k d

  -- The tile of row r and column k stands at index r times the width plus k.
  get_or-all_tiles :
      (i n r k : ℕ) (d : MapTile)
      → r < n
      → k < m.width
      → get_or (all_tiles m i n) (r * m.width + k) d ≡ tile_at m (at (i + r) k)
  unfolding all_tiles
  get_or-all_tiles i zero r k d l h = absurd (omega arith)
  get_or-all_tiles i (suc n) zero k d l h =
      let e : 0 * m.width + k ≡ k = omega arith in
      let f : 0 + k ≡ k = omega arith in
      let g : i ≡ i + 0 = omega arith in
      ap (λ x. get_or (row_tiles m i 0 m.width ++ all_tiles m (i + 1) n) x d) e
      ∙ get_or-row_tiles i 0 m.width k _ d h
      ∙ ap (λ x. tile_at m (at i x)) f
      ∙ ap (λ x. tile_at m (at x k)) g
  get_or-all_tiles i (suc n) (suc r) k d l h =
      let row = row_tiles m i 0 m.width in
      let e : suc r * m.width + k ≡ length row + (r * m.width + k) =
        grind (arith, length-row_tiles i 0 m.width) in
      let g : i + 1 + r ≡ i + suc r = omega arith in
      ap (λ x. get_or (row ++ all_tiles m (i + 1) n) x d) e
      ∙ get_or-behind row (all_tiles m (i + 1) n) (r * m.width + k) d
      ∙ get_or-all_tiles (i + 1) n r k d (omega arith) h
      ∙ ap (λ x. tile_at m (at x k)) g

  module _ (t : Map) where
    abbrev tiles : List MapTile
    tiles = all_tiles m 0 m.height

    -- The next tile goes to row i, column k, and all before that place are as in `m`.
    record Copied (i k : ℕ) (s : ℕ × Map) : Type 0 where
      index : s.0 ≡ i * m.width + k
      width : s.1.width ≡ m.width
      height : s.1.height ≡ m.height
      same :
          (c : Coordinates)
          → (c.row < i) ⊎ ((c.row ≡ i) × (c.column < k))
          → c.column < m.width
          → tile_at s.1 c ≡ tile_at m c

    write_next-Copied :
        (i k : ℕ) (s : ℕ × Map)
        → i < m.height
        → k < m.width
        → Copied i k s
        → Copied i (k + 1) (write_next tiles i k s)
    unfolding map_set_tile_state
    write_next-Copied i k (n, u) l h c = record {
      index = omega (arith, c.index);
      width = c.width;
      height = c.height;
      same = λ q before inside. elim (tile_at-set u (at i k) q (get_or tiles n no_tile)) [
        | inl (e, new) ↦
            let start : 0 + i ≡ i = omega arith in
            new
            ∙ ap (λ x. get_or tiles x no_tile) c.index
            ∙ get_or-all_tiles 0 m.height i k no_tile l h
            ∙ ap (tile_at m) (ap (λ r. at r k) start ∙ sym e)
        | inr (ne, kept) ↦ kept ∙ c.same q (earlier q before ne) inside
      ];
    }
      where
        earlier :
            (q : Coordinates)
            → (q.row < i) ⊎ ((q.row ≡ i) × (q.column < k + 1))
            → q ≢ at i k
            → (q.row < i) ⊎ ((q.row ≡ i) × (q.column < k))
        earlier q (inl a) ne = inl a
        earlier q (inr (a, b)) ne = elim (Bool-cases (q.column == k)) [
          | inl same ↦ absurd (ne (ground arith))
          | inr different ↦ inr (a, ground arith)
        ]

    next_row : (i : ℕ) (s : ℕ × Map) → Copied i m.width s → Copied (i + 1) 0 s
    next_row i s c = record {
      index = grind (arith, c.index);
      width = c.width;
      height = c.height;
      same = λ q before inside. c.same q (earlier q before inside) inside;
    }
      where
        earlier :
            (q : Coordinates)
            → (q.row < i + 1) ⊎ ((q.row ≡ i + 1) × (q.column < 0))
            → q.column < m.width
            → (q.row < i) ⊎ ((q.row ≡ i) × (q.column < m.width))
        earlier q (inl a) b = elim (Bool-cases (q.row == i)) [
          | inl same ↦ inr (ground arith, b)
          | inr different ↦ inl (ground arith)
        ]
        earlier q (inr (a, z)) b = absurd (omega arith)

    copied : Copied m.height 0 (
        for_range m.height 0
          (λ i. for_range m.width 0 (write_next tiles i))
          (0, map_init t m.width m.height))
    copied =
        for_range_inv (λ i s. Copied i 0 s) (λ i. for_range m.width 0 (write_next tiles i)) m.height
          0 m.height _ (omega arith)
          (λ i s l c. next_row i _ (
            for_range_inv (λ k u. Copied i k u) (write_next tiles i) m.width 0 m.width s
              (omega arith) (λ k u h c'. write_next-Copied i k u l h c') c))
          (record {
            index = omega arith;
            width = (map_init_lem t m.width m.height (at 0 0)).1;
            height = (map_init_lem t m.width m.height (at 0 0)).2;
            same = λ q before inside. absurd (nothing q before);
          })
      where
        nothing : (q : Coordinates) → (q.row < 0) ⊎ ((q.row ≡ 0) × (q.column < 0)) → ⊥
        nothing q (inl a) = omega arith
        nothing q (inr (a, b)) = omega arith

-- A client that applies the message of a map to a map of any content has the size of that map and,
-- at every cell of it, its tile.
pub deserialize_to_map-init_map :
    (m t : Map) (c : Coordinates)
    → Inside m c
    → let view = socket_message_deserialize_to_map (socket_message_init_map m) t in
      (tile_at view c ≡ tile_at m c) × (view.width ≡ m.width) × (view.height ≡ m.height)
unfolding socket_message_deserialize_to_map socket_message_init_map
deserialize_to_map-init_map m t c (r, k) =
    let done = copied m t in (done.same c (inl r) k, done.width, done.height)

-- The size alone, also of a map with no cell.
pub deserialize_to_map_sizes :
    (m t : Map)
    → let view = socket_message_deserialize_to_map (socket_message_init_map m) t in
      (view.width ≡ m.width) × (view.height ≡ m.height)
unfolding socket_message_deserialize_to_map socket_message_init_map
deserialize_to_map_sizes m t = let done = copied m t in (done.width, done.height)
