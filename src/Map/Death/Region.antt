-- ===== src/Map/Death/Region.antt =====
-- The tiles of a player that are connected to a cell, and maps in which some of them have died.
use snake_posix.Common.{
  ℕ, ◌*◌, ◌≤◌, ◌<◌, ◌≡◌, refl, sym, ap, ◌∙◌, ◌⊎◌, inl, inr, arith, Bool, true, false, ◌&&◌, ◌==◌,
  Bool-cases, ==-refl,
}
use snake_posix.Common.Sums.{count_cells, count_cells-le, count_cells_mono, count_cells-lt}
use snake_posix.Geometry.{Coordinates, Direction}
use snake_posix.Map.{Map, MapTile, tile_dead, map_set_tile_dead, map_move_in_direction}
use snake_posix.Map.Moves.{Inside}
use snake_posix.Map.Neighbors.{tile_at, owns}

abbrev pub owned : Map → ℕ → Coordinates → Bool
owned m p q = owns p (tile_at m q)

abbrev pub killed : MapTile → MapTile
killed t = record t { type = tile_dead }

pub owns-killed : (p : ℕ) (t : MapTile) → owns p (killed t) ≡ false
unfolding owns
owns-killed p t = refl

-- `q` is joined to `c` by steps over tiles of the player.
pub data Reach (m : Map) (p : ℕ) (c : Coordinates) : Coordinates → Type 0 where
  here : owned m p c ≡ true → Reach m p c c
  step :
      {q r : Coordinates}
      → Reach m p c q
      → (d : Direction) → r ≡ map_move_in_direction m q d
      → owned m p r ≡ true
      → Reach m p c r

pub Reach-owned : {m : Map} {p : ℕ} {c q : Coordinates} → Reach m p c q → owned m p q ≡ true
Reach-owned (here o) = o
Reach-owned (step r d e o) = o

pub Reach-before :
    {m : Map} {p : ℕ} {c b q : Coordinates} (d : Direction)
    → owned m p c ≡ true
    → b ≡ map_move_in_direction m c d
    → Reach m p b q
    → Reach m p c q
Reach-before d o e (here o') = step (here o) d e o'
Reach-before d o e (step r d' e' o') = step (Reach-before d o e r) d' e' o'

unfoldable pub SameSize : Map → Map → Type 0
SameSize m n = (n.width ≡ m.width) × (n.height ≡ m.height)

pub move-SameSize :
    (m n : Map) (q : Coordinates) (d : Direction)
    → SameSize m n
    → map_move_in_direction n q d ≡ map_move_in_direction m q d
unfolding map_move_in_direction SameSize
move-SameSize m n q d s = rw (s.0, s.1)

-- `n` is `m` with some tiles of the player in `S` dead.
pub record Kills (p : ℕ) (S : Coordinates → Type 0) (m n : Map) : Type 0 where
  pub size : SameSize m n
  pub changed :
      (q : Coordinates)
      → (tile_at n q ≡ tile_at m q)
        ⊎ (tile_at n q ≡ killed (tile_at m q)) × (owned m p q ≡ true) × S q

pub Kills-refl : (p : ℕ) (S : Coordinates → Type 0) (m : Map) → Kills p S m m
unfolding SameSize
Kills-refl p S m = record { size = (refl, refl); changed = λ q. inl refl }

pub Kills-trans :
    {p : ℕ} {S T : Coordinates → Type 0} {m n o : Map}
    → Kills p S m n
    → Kills p T n o
    → ((q : Coordinates) → T q → S q)
    → Kills p S m o
unfolding SameSize
Kills-trans {p} {S} {T} {m} {n} {o} k l sub = record {
  size = (l.size.0 ∙ k.size.0, l.size.1 ∙ k.size.1);
  changed = λ q. elim (l.changed q) [
    | inl e ↦ elim (k.changed q) [ inl e' ↦ inl (e ∙ e') | inr (e', own, s) ↦ inr (e ∙ e', own, s) ]
    | inr (e, own, t) ↦ elim (k.changed q) [
      | inl e' ↦ inr (e ∙ ap killed e', sym (ap (owns p) e') ∙ own, sub q t)
      | inr (e', _, _) ↦
          let clash : true ≡ false = sym own ∙ ap (owns p) e' ∙ owns-killed p (tile_at m q) in cc
    ]
  ];
}

-- What is no tile of the player stays none.
pub Kills-owned :
    {p : ℕ} {S : Coordinates → Type 0} {m n : Map}
    → Kills p S m n
    → (q : Coordinates) → owned m p q ≡ false
    → owned n p q ≡ false
Kills-owned {p} {S} {m} {n} k q e = elim (k.changed q) [
  | inl same ↦ ap (owns p) same ∙ e
  | inr (dead, _, _) ↦ ap (owns p) dead ∙ owns-killed p (tile_at m q)
]

pub owned_before :
    {p : ℕ} {S : Coordinates → Type 0} {m n : Map}
    → Kills p S m n
    → (q : Coordinates) → owned n p q ≡ true
    → owned m p q ≡ true
owned_before {p} {S} {m} {n} k q e = elim (Bool-cases (owned m p q)) [
  | inl o ↦ o
  | inr o ↦ let clash : true ≡ false = sym e ∙ Kills-owned k q o in cc
]

pub Reach-mono :
    {p : ℕ} {S : Coordinates → Type 0} {m n : Map} {c q : Coordinates}
    → Kills p S m n
    → Reach n p c q
    → Reach m p c q
Reach-mono {c} k (here o) = here (owned_before k c o)
Reach-mono {m} {n} k (step {q} {r} w d e o) =
    step (Reach-mono k w) d (e ∙ move-SameSize m n q d k.size) (owned_before k r o)

-- The number of tiles of the player, which the fuel is measured by.
pub count_owned : Map → ℕ → ℕ
count_owned m p = count_cells m.height m.width (λ r c. owns p (m.tiles r c))

pub Kills-count :
    {p : ℕ} {S : Coordinates → Type 0} {m n : Map}
    → Kills p S m n
    → count_owned n p ≤ count_owned m p
unfolding count_owned SameSize
Kills-count {p} {S} {m} {n} k =
    rw (k.size.0, k.size.1)
      (count_cells_mono m.height m.width _ _
        (λ r c _ _ e. owned_before k (record { row = r; column = c }) e))

pub count_owned-le : (m : Map) (p : ℕ) → count_owned m p ≤ m.height * m.width
unfolding count_owned
count_owned-le m p = count_cells-le m.height m.width _

-- The death of one tile of the player.
pub set_dead-Kills :
    (m : Map) (p : ℕ) (c : Coordinates)
    → owned m p c ≡ true
    → Kills p (λ q. q ≡ c) m (map_set_tile_dead m c)
unfolding map_set_tile_dead SameSize
set_dead-Kills m p c o = record {
  size = (refl, refl);
  changed = λ q. elim (Bool-cases (q.row == c.row && q.column == c.column)) [
    | inl e ↦
        let same : q ≡ c = ground arith in
        inr (rw same (rw (==-refl c.row, ==-refl c.column)), ap (λ x. owned m p x) same ∙ o, same)
    | inr e ↦ inl (rw e)
  ];
}

pub set_dead-owned : (m : Map) (p : ℕ) (c : Coordinates) → owned (map_set_tile_dead m c) p c ≡ false
unfolding map_set_tile_dead
set_dead-owned m p c = rw (==-refl c.row, ==-refl c.column) (owns-killed p (tile_at m c))

pub set_dead-count :
    (m : Map) (p : ℕ) (c : Coordinates)
    → Inside m c
    → owned m p c ≡ true
    → count_owned (map_set_tile_dead m c) p < count_owned m p
unfolding count_owned map_set_tile_dead
set_dead-count m p c i o =
    count_cells-lt m.height m.width _ _ c.row c.column
      (λ r k _ _ e. owned_before (set_dead-Kills m p c o) (record { row = r; column = k }) e) i.0
      i.1 (set_dead-owned m p c) o
