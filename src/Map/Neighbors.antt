-- ===== src/Map/Neighbors.antt =====
-- The two scans over the four neighbours of a cell: `map_find_empty_neighbor` and
-- `map_find_player_neighbor_with_lowest_order`.
use snake_posix.Common.{
  ℕ, ◌≤◌, ◌≡◌, refl, inl, inr, arith, Bool, true, false, ◌&&◌, ◌==◌, ltb, Bool-cases, Option, none,
  some, List, [], ◌∷◌,
}
use snake_posix.Geometry.{Coordinates, Direction, up, left, down, right, other}
use snake_posix.Map.{
  Map, MapTile, tile_player, is_type, map_is_tile_empty, map_move_in_direction, Best,
  assign_better_tile, map_find_player_neighbor_with_lowest_order, map_find_empty_neighbor,
}

abbrev pub tile_at : Map → Coordinates → MapTile
tile_at m q = m.tiles q.row q.column

-- A player tile of the given player.
unfoldable pub owns : ℕ → MapTile → Bool
owns p t = is_type t.type tile_player && t.player == p

-- Every other value of the C type moves as `right` does.
pub move_other :
    (m : Map) (c : Coordinates) (n : ℕ)
    → map_move_in_direction m c (other n) ≡ map_move_in_direction m c right
unfolding map_move_in_direction
move_other m c n = ground arith

pub every_direction {ℓ} :
    (P : Direction → Type ℓ)
    → P up
    → P down
    → P left
    → P right
    → ((n : ℕ) → P (other n))
    → (d : Direction) → P d
every_direction P u dn l r o up = u
every_direction P u dn l r o left = l
every_direction P u dn l r o down = dn
every_direction P u dn l r o right = r
every_direction P u dn l r o (other n) = o n

-- What a scan for an empty neighbour promises.
abbrev pub EmptyNeighbor : Map → Coordinates → Option (Coordinates × Direction) → Type 0
EmptyNeighbor m c none = (d : Direction) → map_is_tile_empty m (map_move_in_direction m c d) ≡ false
EmptyNeighbor m c (some (q, d)) = (q ≡ map_move_in_direction m c d) × (map_is_tile_empty m q ≡ true)

-- Where `map_find_empty_neighbor` gives a cell and a direction, the cell is the neighbour in that
-- direction and is empty; where it gives none, no direction leads to an empty cell.
pub map_find_empty_neighbor_lem :
    (m : Map) (c : Coordinates) → EmptyNeighbor m c (map_find_empty_neighbor m c)
unfolding map_find_empty_neighbor map_is_tile_empty
map_find_empty_neighbor_lem m c = elim (Bool-cases (side up)) [
  | inl e ↦ rw e (refl, e)
  | inr e1 ↦ elim (Bool-cases (side down)) [
    | inl e ↦ rw (e1, e) (refl, e)
    | inr e2 ↦ elim (Bool-cases (side left)) [
      | inl e ↦ rw (e1, e2, e) (refl, e)
      | inr e3 ↦ elim (Bool-cases (side right)) [
        | inl e ↦ rw (e1, e2, e3, e) (refl, e)
        | inr e4 ↦
            rw (e1, e2, e3, e4)
              (every_direction (λ d. side d ≡ false) e1 e2 e3 e4 (λ n. rw (move_other m c n) e4))
      ]
    ]
  ]
]
  where
    side : Direction → Bool
    side d = map_is_tile_empty m (map_move_in_direction m c d)

module _ (m : Map) (p : ℕ) (c : Coordinates) where
  abbrev owned_side : Direction → Bool
  owned_side d = owns p (tile_at m (map_move_in_direction m c d))

  abbrev NoneOwned : List Direction → Type 0
  NoneOwned [] = Unit
  NoneOwned (d ∷ ds) = (owned_side d ≡ false) × NoneOwned ds

  abbrev Below : ℕ → List Direction → Type 0
  Below k [] = Unit
  Below k (d ∷ ds) =
      (owned_side d ≡ true → k ≤ (tile_at m (map_move_in_direction m c d)).order) × Below k ds

  -- What the scan knows after the directions of the list.
  abbrev Lowest : List Direction → Best → Type 0
  Lowest ds none = NoneOwned ds
  Lowest ds (some (q, t)) =
      (t ≡ tile_at m q)
      × (owns p t ≡ true)
      × ((d : Direction) × (q ≡ map_move_in_direction m c d))
      × Below t.order ds

  Below-mono : (ds : List Direction) (k n : ℕ) → k ≤ n → Below n ds → Below k ds
  Below-mono [] k n h b = tt
  Below-mono (d ∷ ds) k n h b = (λ e. omega (arith, b.0 e), Below-mono ds k n h b.1)

  Below-none : (ds : List Direction) (k : ℕ) → NoneOwned ds → Below k ds
  Below-none [] k h = tt
  Below-none (d ∷ ds) k h = (λ e. ground arith, Below-none ds k h.1)

  assign-Lowest :
      (d : Direction) (ds : List Direction) (b : Best)
      → Lowest ds b
      → Lowest (d ∷ ds) (assign_better_tile m p c d b)
  unfolding assign_better_tile owns
  assign-Lowest d ds none h = elim (Bool-cases (owned_side d)) [
    | inl e ↦ rw e (refl, e, (d, refl), ((λ _. omega arith), Below-none ds _ h))
    | inr e ↦ rw e (e, h)
  ]
  assign-Lowest d ds (some (q, t)) h = elim (Bool-cases (owned_side d)) [
    | inr e ↦ rw e (h.0, h.1, h.2, ((λ o. ground arith), h.3))
    | inl e ↦ elim (Bool-cases (ltb (tile_at m (map_move_in_direction m c d)).order t.order)) [
      | inl b ↦
          rw (e, b) (refl, e, (d, refl), ((λ _. omega arith), Below-mono ds _ _ (ground arith) h.3))
      | inr b ↦ rw (e, b) (h.0, h.1, h.2, ((λ _. ground arith), h.3))
    ]
  ]

-- What the scan for the lowest order promises.
abbrev pub LowestNeighbor : Map → ℕ → Coordinates → Option Coordinates → Type 0
LowestNeighbor m p c none =
    (d : Direction) → owns p (tile_at m (map_move_in_direction m c d)) ≡ false
LowestNeighbor m p c (some q) =
    (owns p (tile_at m q) ≡ true)
    × ((d : Direction) × (q ≡ map_move_in_direction m c d))
    × ((d : Direction)
        → owns p (tile_at m (map_move_in_direction m c d)) ≡ true
        → (tile_at m q).order ≤ (tile_at m (map_move_in_direction m c d)).order)

scan-LowestNeighbor :
    (m : Map) (p : ℕ) (c : Coordinates) (b : Best)
    → Lowest m p c (right ∷ left ∷ down ∷ up ∷ []) b
    → LowestNeighbor m p c (elim b [ none ↦ none | some (q, t) ↦ some q ])
scan-LowestNeighbor m p c none h =
    every_direction (λ d. owns p (tile_at m (map_move_in_direction m c d)) ≡ false) h.1.1.1.0
      h.1.1.0 h.1.0 h.0 (λ n. rw (move_other m c n) h.0)
scan-LowestNeighbor m p c (some (q, t)) h =
    let b : Below m p c t.order (right ∷ left ∷ down ∷ up ∷ []) = h.3 in
    (
      ground arith,
      h.2,
      every_direction
          (λ d.
            owns p (tile_at m (map_move_in_direction m c d)) ≡ true
            → (tile_at m q).order ≤ (tile_at m (map_move_in_direction m c d)).order)
          (rw h.0 at b.1.1.1.0) (rw h.0 at b.1.1.0) (rw h.0 at b.1.0) (rw h.0 at b.0)
          (λ n. rw (move_other m c n) (rw h.0 at b.0)),
    )

-- Where `map_find_player_neighbor_with_lowest_order` gives a cell, it is a neighbour and a tile of
-- the player, and no neighbour that is a tile of the player has a lower order; where it gives
-- none, no neighbour is a tile of the player.
pub find_lowest-LowestNeighbor :
    (m : Map) (p : ℕ) (c : Coordinates)
    → LowestNeighbor m p c (map_find_player_neighbor_with_lowest_order m p c)
unfolding map_find_player_neighbor_with_lowest_order
find_lowest-LowestNeighbor m p c = scan-LowestNeighbor m p c _ (
    assign-Lowest m p c right (left ∷ down ∷ up ∷ []) _ (
      assign-Lowest m p c left (down ∷ up ∷ []) _
        (assign-Lowest m p c down (up ∷ []) _ (assign-Lowest m p c up [] none tt))))
