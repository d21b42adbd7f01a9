-- ===== src/Changelog/Replay.antt =====
-- A changelog seen as the list of its entries, and as an update of a map.
use snake_posix.Common.{
  ℕ, zero, suc, ◌≤◌, ◌≡◌, refl, sym, ◌∙◌, ◌≢◌, ◌⊎◌, inl, inr, arith, false, ◌&&◌, ◌==◌,
  if◌then◌else◌, Bool-cases, ==-refl, List, [], ◌∷◌, ◌++◌,
}
use native.Mathlib.Numerals.{add-one}
use snake_posix.Geometry.{Coordinates}
use snake_posix.Map.{Map, MapTile, map_set_tile_state}
use snake_posix.Map.Neighbors.{tile_at}
use snake_posix.Changelog.{
  Change, change_tile_state, Changelog, changelog_push_tile_state_change, first_changes,
}

-- The entries in order.
unfoldable pub entries : Changelog → List Change
entries self = first_changes self.size self.changes

first_changes-push :
    (n k : ℕ) (f : ℕ → Change) (x : Change)
    → n ≤ k
    → first_changes n (λ i. if i == k then x else f i) ≡ first_changes n f
unfolding first_changes
first_changes-push zero k f x h = refl
first_changes-push (suc n) k f x h =
    let e : (n == k) ≡ false = ground arith in rw (first_changes-push n k f x (omega arith), e)

pub entries-push :
    (self : Changelog) (c : Coordinates) (t : MapTile)
    → entries (changelog_push_tile_state_change self c t)
      ≡ entries self ++ (change_tile_state c t ∷ [])
unfolding entries changelog_push_tile_state_change first_changes
entries-push self c t = rw add-one (
    rw (
      first_changes-push self.size self.size self.changes (change_tile_state c t) (omega arith),
      ==-refl self.size,
    ))

-- What a client does with one entry, and with all of them.
abbrev pub apply_change : Change → Map → Map
apply_change (change_tile_state c t) m = map_set_tile_state m c t

unfoldable pub replay : Map → List Change → Map
replay m [] = m
replay m (x ∷ xs) = replay (apply_change x m) xs

pub replay-append : (m : Map) (xs ys : List Change) → replay m (xs ++ ys) ≡ replay (replay m xs) ys
unfolding replay
replay-append m [] ys = refl
replay-append m (x ∷ xs) ys = replay-append (apply_change x m) xs ys

pub tile_at-set :
    (m : Map) (c q : Coordinates) (t : MapTile)
    → ((q ≡ c) × (tile_at (map_set_tile_state m c t) q ≡ t))
      ⊎ (q ≢ c) × (tile_at (map_set_tile_state m c t) q ≡ tile_at m q)
unfolding map_set_tile_state
tile_at-set m c q t = elim (Bool-cases (q.row == c.row && q.column == c.column)) [
  | inl e ↦ inl (ground arith, rw e)
  | inr e ↦ inr ((λ same. ground arith), rw e)
]

pub set_eq :
    (m : Map) (c q : Coordinates) (t : MapTile) → q ≡ c → tile_at (map_set_tile_state m c t) q ≡ t
set_eq m c q t same = elim (tile_at-set m c q t) [ inl (_, e) ↦ e | inr (ne, _) ↦ absurd (ne same) ]

pub set_ne :
    (m : Map) (c q : Coordinates) (t : MapTile)
    → q ≢ c
    → tile_at (map_set_tile_state m c t) q ≡ tile_at m q
set_ne m c q t ne = elim (tile_at-set m c q t) [ inl (same, _) ↦ absurd (ne same) | inr (_, e) ↦ e ]

-- Maps that agree at a cell still agree there after the same changes.
pub replay-agree :
    (l : List Change) (m n : Map) (c : Coordinates)
    → tile_at m c ≡ tile_at n c
    → tile_at (replay m l) c ≡ tile_at (replay n l) c
unfolding replay
replay-agree [] m n c e = e
replay-agree (change_tile_state q t ∷ xs) m n c e =
    replay-agree xs (map_set_tile_state m q t) (map_set_tile_state n q t) c
      (elim (tile_at-set m q c t) [
        | inl (same, new) ↦ new ∙ sym (set_eq n q c t same)
        | inr (ne, kept) ↦ kept ∙ e ∙ sym (set_ne n q c t ne)
      ])

pub replay_sizes :
    (l : List Change) (m : Map) → ((replay m l).height ≡ m.height) × ((replay m l).width ≡ m.width)
unfolding replay map_set_tile_state
replay_sizes [] m = (refl, refl)
replay_sizes (change_tile_state c t ∷ l) m = replay_sizes l (map_set_tile_state m c t)
