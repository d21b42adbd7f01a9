-- ===== src/Map/Search.antt =====
-- `map_find_random_matching_predicate`: a depth-first search over the torus in random order. The
-- fuel is one more than the cells of the board, since each call below the first has marked one
-- more cell as visited.
pub mod Torus
pub mod Shuffle
pub mod Promise
pub mod Complete
use snake_posix.Common.{
  ℕ, zero, suc, ◌+◌, ◌-◌, ◌*◌, ◌/◌, ◌%◌, ◌^◌, ◌≤◌, ◌<◌, ◌≡◌, refl, sym, ap, ◌∙◌, subst, ◌≢◌, ◌↔◌,
  ◌⊎◌, inl, inr, arith, Bool, true, false, not, ◌&&◌, ◌||◌, ◌==◌, ltb, leb, if◌then◌else◌,
  Bool-cases, ==-refl, ==→≡, ==→≢, Option, none, some, Option-cases, List, [], ◌∷◌, ◌++◌,
}
use snake_posix.Common.{add32, mul32, length, get_or, set, replicate}
use snake_posix.Common.Outcome.{Outcome, ok, stuck, ◌>>=◌}
use snake_posix.Rng.{Rng}
use snake_posix.Geometry.{Coordinates, Direction, up, left, down, right}
use snake_posix.Map.{Map, map_move_in_direction}

-- `map_tile_predicate_t`
abbrev pub TilePredicate : Type 0
TilePredicate = Map → Coordinates → Bool

-- The `visited` array of `map_search_data_t`, and the state of the generator.
pub record SearchData : Type 0 where
  pub visited : ℕ → Bool
  pub seed : ℕ

-- The index is computed in `coordinate_t`.
abbrev pub cell_index : Map → Coordinates → ℕ
cell_index self coordinates = add32 (mul32 self.width coordinates.row) coordinates.column

abbrev pub swap_items {ℓ} : {A : Type ℓ} → List A → ℕ → ℕ → A → List A
swap_items l i j d = set (set l i (get_or l j d)) j (get_or l i d)

module _ (rng : Rng) where
  -- The first loop: `n` swaps of two drawn positions.
  pub shuffle : ℕ → List Direction → ℕ → List Direction × ℕ
  shuffle zero directions seed = (directions, seed)
  shuffle (suc n) directions seed =
      let (i, seed) = rng.uniform_dist 0 4 seed in
      let (j, seed) = rng.uniform_dist 0 4 seed in shuffle n (swap_items directions i j up) seed

-- The second loop, over the directions that are left; `go` is the recursive call.
pub try_directions :
    (Coordinates → SearchData → Outcome (Option Coordinates × SearchData))
    → Map
    → Coordinates
    → List Direction
    → SearchData
    → Outcome (Option Coordinates × SearchData)
try_directions go m c [] st = ok (none, st)
try_directions go m c (d ∷ ds) st = do
  (found, st') ← go (map_move_in_direction m c d) st
  elim found [ some q ↦ ok (some q, st') | none ↦ try_directions go m c ds st' ]

module _ (rng : Rng) (self : Map) (predicate : TilePredicate) where
  pub search : ℕ → Coordinates → SearchData → Outcome (Option Coordinates × SearchData)
  search zero c st = stuck
  search (suc fuel) c st =
      let index = cell_index self c in
      let (directions, seed') = shuffle rng 4 (up ∷ down ∷ left ∷ right ∷ []) st.seed in
      let marked : SearchData = record {
        visited = λ i. if i == index then true else st.visited i;
        seed = seed';
      } in
      let rest = try_directions (search fuel) self c directions marked in
      if st.visited index
      then ok (none, st)
      else (if predicate self c then ok (some c, st) else rest)

  -- `none` is the result false; the number is the new state of the generator.
  unfoldable pub map_find_random_matching_predicate : ℕ → Outcome (Option Coordinates × ℕ)
  map_find_random_matching_predicate seed = do
    let (row, seed1) = rng.uniform_dist 0 self.height seed
    let (column, seed2) = rng.uniform_dist 0 self.width seed1
    (found, data') ←
        search (self.height * self.width + 1) (record { row = row; column = column })
          (record { visited = λ i. false; seed = seed2 })
    ok (found, data'.seed)
