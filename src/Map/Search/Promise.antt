-- ===== src/Map/Search/Promise.antt =====
-- What one call of the search promises, and the loop over the directions of one cell.
use snake_posix.Common.{
  ℕ, ◌+◌, ◌*◌, ◌^◌, ◌≤◌, ◌<◌, ◌≡◌, refl, sym, ◌∙◌, ◌⊎◌, inl, inr, arith, Bool, true, false, not,
  Bool-cases, Option, none, some, List, [], ◌∷◌,
}
use snake_posix.Common.Sums.{count_cells, count_cells-le, count_cells_mono}
use snake_posix.Common.Outcome.{Outcome, ok}
use snake_posix.Geometry.{Coordinates, Direction}
use snake_posix.Map.{Map, map_move_in_direction}
use snake_posix.Map.Moves.{Inside, FitsU32, move-Inside}
use snake_posix.Map.Search.{TilePredicate, SearchData, cell_index, try_directions}
use snake_posix.Map.Search.Shuffle.{HasDirection, HasDirection-tail}

-- The board has fewer than 2 ^ 31 cells, so that the indices are distinct and the casts of the
-- sizes to `int` keep them.
pub record FitsIndex (m : Map) : Type 0 where
  pub sizes : FitsU32 m
  pub area : m.height * m.width < 2 ^ 31

index-lt : (w h r c : ℕ) → r < h → c < w → w * r + c < h * w
index-lt w h r c p q = grind arith

index-row : (w r c s d : ℕ) → c < w → r < s → w * r + c < w * s + d
index-row w r c s d p q = grind arith

index_inj :
    (w : ℕ) (a b : Coordinates)
    → a.column < w
    → b.column < w
    → w * a.row + a.column ≡ w * b.row + b.column
    → a ≡ b
index_inj w a b i j e = ground (
  arith,
  index-row w a.row a.column b.row b.column i,
  index-row w b.row b.column a.row a.column j,
)

pub cell_index_lem :
    (m : Map) (c : Coordinates)
    → FitsIndex m
    → Inside m c
    → (cell_index m c ≡ m.width * c.row + c.column) × (cell_index m c < m.height * m.width)
cell_index_lem m c f i =
    let lt = index-lt m.width m.height c.row c.column i.0 i.1 in
    (omega (arith, f.area), omega (arith, f.area))

pub cell_index_inj :
    (m : Map) (a b : Coordinates)
    → FitsIndex m
    → Inside m a
    → Inside m b
    → cell_index m a ≡ cell_index m b
    → a ≡ b
cell_index_inj m a b f i j e =
    index_inj m.width a b i.1 j.1 (sym (cell_index_lem m a f i).0 ∙ e ∙ (cell_index_lem m b f j).0)

module _ (m : Map) (predicate : TilePredicate) (fits : FitsIndex m) where
  abbrev pub seen : SearchData → Coordinates → Bool
  seen st c = st.visited (cell_index m c)

  -- The number of cells not visited yet, which the fuel is measured by.
  unfoldable pub unseen : SearchData → ℕ
  unseen st = count_cells m.height m.width (λ r k. not (seen st (record { row = r; column = k })))

  pub unseen-le : (st : SearchData) → unseen st ≤ m.height * m.width
  unfolding unseen
  unseen-le st = count_cells-le m.height m.width _

  abbrev pub Grows : SearchData → SearchData → Type 0
  Grows st st' = (q : Coordinates) → Inside m q → seen st q ≡ true → seen st' q ≡ true

  pub Grows-unseen : (st st' : SearchData) → Grows st st' → unseen st' ≤ unseen st
  unfolding unseen
  Grows-unseen st st' g = count_cells_mono m.height m.width _ _ (λ r k hr hk e.
      let q : Coordinates = record { row = r; column = k } in
      elim (Bool-cases (seen st q)) [
        | inl s ↦ let clash = g q (hr, hk) s in ground arith
        | inr s ↦ rw s
      ])

  -- Every neighbour has been visited.
  abbrev pub Explored : SearchData → Coordinates → Type 0
  Explored st q =
      (predicate m q ≡ false) × ((d : Direction) → seen st (map_move_in_direction m q d) ≡ true)

  -- A failed call from `c`: `c` has been visited, and what it visited holds no match and has no
  -- neighbour that was left out.
  pub record Failed (st : SearchData) (c : Coordinates) (st' : SearchData) : Type 0 where
    pub grows : Grows st st'
    pub start : seen st' c ≡ true
    pub closed :
        (q : Coordinates) → Inside m q → seen st q ≡ false → seen st' q ≡ true → Explored st' q

  abbrev pub Promise : SearchData → Coordinates → Option Coordinates × SearchData → Type 0
  Promise st c (some q, st') = Inside m q × (predicate m q ≡ true)
  Promise st c (none, st') = Failed st c st'

  -- Between the calls for the directions of `c`; `ds` are still to come.
  pub record Partial (st : SearchData) (c : Coordinates) (all ds : List Direction)
      (now : SearchData) : Type 0 where
    pub grows : Grows st now
    pub start : seen now c ≡ true
    pub closed :
        (q : Coordinates)
        → Inside m q
        → seen st q ≡ false
        → seen now q ≡ true
        → (q ≡ c) ⊎ Explored now q
    pub sides :
        (e : Direction)
        → HasDirection all e
        → HasDirection ds e ⊎ (seen now (map_move_in_direction m c e) ≡ true)

  Partial-next :
      (st : SearchData) (c : Coordinates) (all ds : List Direction) (d : Direction)
      (now after : SearchData)
      → Inside m c
      → Partial st c all (d ∷ ds) now
      → Failed now (map_move_in_direction m c d) after
      → Partial st c all ds after
  Partial-next st c all ds d now after i p f = record {
    grows = λ q iq s. f.grows q iq (p.grows q iq s);
    start = f.grows c i p.start;
    closed = λ q iq old new. elim (Bool-cases (seen now q)) [
      | inl s ↦ elim (p.closed q iq old s) [
        | inl e ↦ inl e
        | inr (no_match, near) ↦
            inr (no_match, λ e. f.grows _ (move-Inside m q e fits.sizes iq) (near e))
      ]
      | inr s ↦ inr (f.closed q iq s new)
    ];
    sides = λ e h. elim (p.sides e h) [
      | inl h' ↦ elim (HasDirection-tail d ds e h') [
        | inl same ↦ inr (rw same f.start)
        | inr rest ↦ inl rest
      ]
      | inr s ↦ inr (f.grows _ (move-Inside m c e fits.sizes i) s)
    ];
  }

  -- The promise of the recursive call is an argument, since the loop is not recursive with it.
  module _ (go : Coordinates → SearchData → Outcome (Option Coordinates × SearchData)) (fuel : ℕ)
      (ih : (b : Coordinates) (now : SearchData)
        → Inside m b
        → unseen now < fuel
        → (r : Option Coordinates × SearchData) × (go b now ≡ ok r) × Promise now b r) where
    unfoldable pub LoopResult :
        SearchData → Coordinates → List Direction → Option Coordinates × SearchData → Type 0
    LoopResult st c all (some q, after) = Inside m q × (predicate m q ≡ true)
    LoopResult st c all (none, after) = Partial st c all [] after

    pub try_directions-LoopResult :
        (st : SearchData) (c : Coordinates) (all ds : List Direction) (now : SearchData)
        → Inside m c
        → unseen now < fuel
        → Partial st c all ds now
        → (r : Option Coordinates × SearchData) × (try_directions go m c ds now ≡ ok r)
          × LoopResult st c all r
    unfolding try_directions LoopResult
    try_directions-LoopResult st c all [] now i less p = ((none, now), refl, p)
    try_directions-LoopResult st c all (d ∷ ds) now i less p =
        pick (ih (map_move_in_direction m c d) now (move-Inside m c d fits.sizes i) less)
          (λ after f.
            try_directions-LoopResult st c all ds after i
              (omega (arith, Grows-unseen now after f.grows))
              (Partial-next st c all ds d now after i p f))
      where
        pick :
            (r : Option Coordinates × SearchData) × (go (map_move_in_direction m c d) now ≡ ok r)
              × Promise now (map_move_in_direction m c d) r
            → ((after : SearchData)
                → Failed now (map_move_in_direction m c d) after
                → (r : Option Coordinates × SearchData) × (try_directions go m c ds after ≡ ok r)
                  × LoopResult st c all r)
            → (r : Option Coordinates × SearchData) × (try_directions go m c (d ∷ ds) now ≡ ok r)
              × LoopResult st c all r
        pick ((some q, after), e, h) k = ((some q, after), rw e, h)
        pick ((none, after), e, h) k = let (r, e', h') = k after h in (r, rw (e, e'), h')
