-- ===== src/Map/Search/Complete.antt =====
-- `map_find_random_matching_predicate`: the whole search, with its fuel.
use snake_posix.Common.{
  ℕ, zero, suc, ◌+◌, ◌*◌, ◌<◌, ◌≡◌, refl, sym, ◌∙◌, ◌⊎◌, inl, inr, arith, true, false, ◌==◌,
  if◌then◌else◌, Bool-cases, ==-refl, ==→≡, Option, none, some, List, [], ◌∷◌,
}
use snake_posix.Common.Sums.{count_cells-lt}
use snake_posix.Common.Outcome.{Outcome, ok, ◌>>=◌}
use snake_posix.Rng.{Rng}
use snake_posix.Geometry.{Coordinates, Direction, up, left, down, right}
use snake_posix.Map.{Map, map_move_in_direction}
use snake_posix.Map.Moves.{Inside}
use snake_posix.Map.Neighbors.{every_direction, move_other}
use snake_posix.Map.Search.{
  TilePredicate, SearchData, cell_index, shuffle, search, map_find_random_matching_predicate,
}
use snake_posix.Map.Search.Shuffle.{HasDirection, shuffle-HasDirection}
use snake_posix.Map.Search.Promise.{
  FitsIndex, cell_index_inj, seen, unseen, unseen-le, Failed, Promise, Partial, LoopResult,
  try_directions-LoopResult,
}
use snake_posix.Map.Search.Torus.{torus_closed}

abbrev four : List Direction
four = up ∷ down ∷ left ∷ right ∷ []

module _ (rng : Rng) (m : Map) (predicate : TilePredicate) (fits : FitsIndex m) where
  mark : SearchData → Coordinates → ℕ → SearchData
  mark st c seed = record {
    visited = λ i. if i == cell_index m c then true else st.visited i;
    seed = seed;
  }

  seen-mark :
      (st : SearchData) (c q : Coordinates) (seed : ℕ)
      → Inside m c
      → Inside m q
      → (q ≡ c) ⊎ (seen m predicate fits (mark st c seed) q ≡ seen m predicate fits st q)
  unfolding mark
  seen-mark st c q seed i j = elim (Bool-cases (cell_index m q == cell_index m c)) [
    | inl e ↦ inl (cell_index_inj m q c fits j i (==→≡ _ _ e))
    | inr e ↦ inr (rw e)
  ]

  seen-mark_self :
      (st : SearchData) (c : Coordinates) (seed : ℕ)
      → seen m predicate fits (mark st c seed) c ≡ true
  unfolding mark
  seen-mark_self st c seed = rw (==-refl (cell_index m c))

  mark-unseen :
      (st : SearchData) (c : Coordinates) (seed : ℕ)
      → Inside m c
      → seen m predicate fits st c ≡ false
      → unseen m predicate fits (mark st c seed) < unseen m predicate fits st
  unfolding unseen
  mark-unseen st c seed i e =
      count_cells-lt m.height m.width _ _ c.row c.column
        (λ r k hr hk h. elim (seen-mark st c (record { row = r; column = k }) seed i (hr, hk)) [
          | inl same ↦ rw (same, e)
          | inr kept ↦ rw (← kept) h
        ])
        i.0 i.1 (rw (seen-mark_self st c seed)) (rw e)

  mark-Partial :
      (st : SearchData) (c : Coordinates) (seed : ℕ) (all : List Direction)
      → Inside m c
      → Partial m predicate fits st c all all (mark st c seed)
  mark-Partial st c seed all i = record {
    grows = λ q j s. elim (seen-mark st c q seed i j) [
      | inl e ↦ rw e (seen-mark_self st c seed)
      | inr e ↦ e ∙ s
    ];
    start = seen-mark_self st c seed;
    closed = λ q j old new. elim (seen-mark st c q seed i j) [
      | inl e ↦ inl e
      | inr e ↦ let clash : true ≡ false = sym new ∙ e ∙ old in cc
    ];
    sides = λ e h. inl h;
  }

  Partial-Failed :
      (st after : SearchData) (c : Coordinates) (all : List Direction)
      → ((e : Direction) → HasDirection four e → HasDirection all e)
      → predicate m c ≡ false
      → Partial m predicate fits st c all [] after
      → Failed m predicate fits st c after
  Partial-Failed st after c all full no_match p = record {
    grows = p.grows;
    start = p.start;
    closed =
        λ q j old new. elim (p.closed q j old new) [ inl e ↦ rw e (no_match, every) | inr x ↦ x ];
  }
    where
      near :
          (e : Direction)
          → HasDirection four e
          → seen m predicate fits after (map_move_in_direction m c e) ≡ true
      near e h = elim (p.sides e (full e h)) [ inl (k, lt, _) ↦ absurd (omega arith) | inr s ↦ s ]

      every : (e : Direction) → seen m predicate fits after (map_move_in_direction m c e) ≡ true
      every =
          every_direction (λ e. seen m predicate fits after (map_move_in_direction m c e) ≡ true)
            (near up (0, omega arith, refl)) (near down (1, omega arith, refl))
            (near left (2, omega arith, refl)) (near right (3, omega arith, refl))
            (λ n. rw (move_other m c n) (near right (3, omega arith, refl)))

  four_kept :
      (seed : ℕ) (e : Direction) → HasDirection four e → HasDirection (shuffle rng 4 four seed).0 e
  four_kept seed e h = shuffle-HasDirection rng 4 four seed e refl h

  finish :
      (st : SearchData) (c : Coordinates)
      (go : Coordinates → SearchData → Outcome (Option Coordinates × SearchData)) (fuel : ℕ)
      (ih : (b : Coordinates) (now : SearchData)
        → Inside m b
        → unseen m predicate fits now < fuel
        → (r : Option Coordinates × SearchData) × (go b now ≡ ok r)
          × Promise m predicate fits now b r)
      → predicate m c ≡ false
      → (r : Option Coordinates × SearchData)
      → LoopResult m predicate fits go fuel ih st c (shuffle rng 4 four st.seed).0 r
      → Promise m predicate fits st c r
  unfolding LoopResult
  finish st c go fuel ih miss (some q, after) h = h
  finish st c go fuel ih miss (none, after) h =
      Partial-Failed st after c _ (four_kept st.seed) miss h

  -- With more fuel than there are cells not visited yet, the call returns and keeps its promise.
  search-Promise :
      (fuel : ℕ) (c : Coordinates) (st : SearchData)
      → Inside m c
      → unseen m predicate fits st < fuel
      → (r : Option Coordinates × SearchData) × (search rng m predicate fuel c st ≡ ok r)
        × Promise m predicate fits st c r
  unfolding search mark
  search-Promise zero c st i less = elim less [ ]
  search-Promise (suc fuel) c st i less = elim (Bool-cases (seen m predicate fits st c)) [
    | inl e ↦ (
      (none, st),
      rw e,
      record {
        grows = λ q j s. s;
        start = e;
        closed = λ q j a b. let clash : true ≡ false = sym b ∙ a in cc;
      },
    )
    | inr e ↦ elim (Bool-cases (predicate m c)) [
      | inl hit ↦ ((some c, st), rw (e, hit), (i, hit))
      | inr miss ↦
          let drawn = shuffle rng 4 four st.seed in
          let less' : unseen m predicate fits (mark st c drawn.1) < fuel =
            omega (arith, mark-unseen st c drawn.1 i e) in
          let run =
            try_directions-LoopResult m predicate fits (search rng m predicate fuel) fuel
              (λ b now. search-Promise fuel b now) st c drawn.0 drawn.0 (mark st c drawn.1) i less'
              (mark-Partial st c drawn.1 drawn.0 i) in
          (
            run.0,
            rw (e, miss) run.1,
            finish st c (search rng m predicate fuel) fuel (λ b now. search-Promise fuel b now) miss
                run.0 run.2,
          )
    ]
  ]

  -- From no cell visited, a failed search has visited the whole board.
  Failed-all :
      (st after : SearchData) (c : Coordinates)
      → Inside m c
      → ((q : Coordinates) → seen m predicate fits st q ≡ false)
      → Failed m predicate fits st c after
      → (q : Coordinates) → Inside m q
      → predicate m q ≡ false
  Failed-all st after c i fresh f q j =
      let visited =
        torus_closed m fits.sizes (λ b. seen m predicate fits after b ≡ true)
          (λ b ib s. (f.closed b ib (fresh b) s).1 down)
          (λ b ib s. (f.closed b ib (fresh b) s).1 right) c i f.start q j in
      (f.closed q j (fresh q) visited).0

  -- A match on the board, or none anywhere on it.
  abbrev pub Finds : Option Coordinates × ℕ → Type 0
  Finds (some q, seed) = Inside m q × (predicate m q ≡ true)
  Finds (none, seed) = (q : Coordinates) → Inside m q → predicate m q ≡ false

-- On a board with at least one cell and fewer than 2 ^ 31, whose sizes fit `coordinate_t`,
-- `map_find_random_matching_predicate` returns, for every generator and every state of it; where
-- it gives a cell, that is a cell of the board that matches the predicate, and where it gives
-- none, no cell of the board matches.
pub find_random-Finds :
    (rng : Rng) (m : Map) (predicate : TilePredicate) (fits : FitsIndex m) (seed : ℕ)
    → 0 < m.height
    → 0 < m.width
    → (r : Option Coordinates × ℕ) × (map_find_random_matching_predicate rng m predicate seed
        ≡ ok r)
      × Finds rng m predicate fits r
unfolding map_find_random_matching_predicate
find_random-Finds rng m predicate fits seed h w =
    let drawn = rng.uniform_dist 0 m.height seed in
    let drawn' = rng.uniform_dist 0 m.width drawn.1 in
    let start : Coordinates = record { row = drawn.0; column = drawn'.0 } in
    let fresh : SearchData = record { visited = λ i. false; seed = drawn'.1 } in
    let inside : Inside m start =
      ((rng.in_range 0 m.height seed h).1, (rng.in_range 0 m.width drawn.1 w).1) in
    close start fresh inside (λ q. refl)
      (search-Promise rng m predicate fits (m.height * m.width + 1) start fresh inside
        (omega (arith, unseen-le m predicate fits fresh)))
  where
    close :
        (start : Coordinates) (fresh : SearchData)
        → Inside m start
        → ((q : Coordinates) → seen m predicate fits fresh q ≡ false)
        → (r : Option Coordinates × SearchData) × (search rng m predicate
              (m.height * m.width + 1)
              start
              fresh
            ≡ ok r)
          × Promise m predicate fits fresh start r
        → (r : Option Coordinates × ℕ) × ((do
          (found, data') ← search rng m predicate (m.height * m.width + 1) start fresh
          ok (found, data'.seed))
            ≡ ok r)
          × Finds rng m predicate fits r
    close start fresh i clean ((some q, after), e, p) = ((some q, after.seed), rw e, p)
    close start fresh i clean ((none, after), e, p) =
        ((none, after.seed), rw e, Failed-all rng m predicate fits fresh after start i clean p)
