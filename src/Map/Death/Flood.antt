-- ===== src/Map/Death/Flood.antt =====
-- `map_mark_player_as_dead`: the flood from a cell of the board, and its fuel.
use snake_posix.Common.{
  ℕ, zero, suc, ◌+◌, ◌*◌, ◌<◌, ◌≡◌, sym, ap, ◌∙◌, ◌⊎◌, inl, inr, arith, true, false, not, ◌||◌,
  ◌==◌, Bool-cases, List, [], ◌∷◌,
}
use snake_posix.Common.Outcome.{Outcome, ok}
use snake_posix.Geometry.{Coordinates, Direction, up, left, down, right}
use snake_posix.Map.{Map, MapTile, tile_player, is_type, map_set_tile_dead, map_move_in_direction}
use snake_posix.Map.Moves.{Inside, FitsU32, move-Inside}
use snake_posix.Map.Neighbors.{tile_at, owns, every_direction, move_other}
use snake_posix.Map.Death.{mark_fuel, map_mark_player_as_dead}
use snake_posix.Map.Death.Region.{
  owned, killed, Reach, here, step, Reach-owned, Reach-before, SameSize, move-SameSize, Kills,
  Kills-refl, Kills-trans, Kills-owned, Reach-mono, count_owned, Kills-count, count_owned-le,
  set_dead-Kills, set_dead-owned, set_dead-count,
}

-- What one call promises: the tiles that died are joined to the start, the start is no tile of
-- the player any more, and no tile that died has a neighbour that still lives.
record Marked (p : ℕ) (m : Map) (c : Coordinates) (n : Map) : Type 0 where
  kills : Kills p (Reach m p c) m n
  start : owned n p c ≡ false
  closed :
      (q : Coordinates)
      → owned m p q ≡ true
      → owned n p q ≡ false
      → (d : Direction) → owned n p (map_move_in_direction m q d) ≡ false

abbrev Done : ℕ → Map → Coordinates → Map → List Direction → Type 0
Done p m c n [] = Unit
Done p m c n (d ∷ ds) = (owned n p (map_move_in_direction m c d) ≡ false) × Done p m c n ds

-- The state between the four calls: all of the above, but of the start only for the directions
-- already taken.
record Partial (p : ℕ) (m : Map) (c : Coordinates) (ds : List Direction) (n : Map) : Type 0 where
  kills : Kills p (Reach m p c) m n
  start : owned n p c ≡ false
  closed :
      (q : Coordinates)
      → owned m p q ≡ true
      → owned n p q ≡ false
      → (q ≡ c) ⊎ ((d : Direction) → owned n p (map_move_in_direction m q d) ≡ false)
  sides : Done p m c n ds

module _ (p : ℕ) (m : Map) (c : Coordinates) (own : owned m p c ≡ true) where
  Partial-start : Partial p m c [] (map_set_tile_dead m c)
  Partial-start = record {
    kills =
        Kills-trans (Kills-refl p (Reach m p c) m) (set_dead-Kills m p c own)
          (λ q e. rw e (here own));
    start = set_dead-owned m p c;
    closed = λ q o o'. inl (elim ((set_dead-Kills m p c own).changed q) [
      | inl e ↦ let clash : true ≡ false = sym o ∙ sym (ap (owns p) e) ∙ o' in cc
      | inr (_, _, e) ↦ e
    ]);
    sides = tt;
  }

  Done-Kills :
      (ds : List Direction) (n o : Map) (S : Coordinates → Type 0)
      → Kills p S n o
      → Done p m c n ds
      → Done p m c o ds
  Done-Kills [] n o S k h = tt
  Done-Kills (d ∷ ds) n o S k h = (Kills-owned k _ h.0, Done-Kills ds n o S k h.1)

  Partial-next :
      (ds : List Direction) (n o : Map) (d : Direction)
      → Partial p m c ds n
      → Marked p n (map_move_in_direction n c d) o
      → Partial p m c (d ∷ ds) o
  Partial-next ds n o d h k =
      let same = move-SameSize m n c d h.kills.size in
      record {
        kills = Kills-trans h.kills k.kills (λ q r. Reach-before d own same (Reach-mono h.kills r));
        start = Kills-owned k.kills c h.start;
        closed = λ q a b. elim (Bool-cases (owned n p q)) [
          | inl alive ↦
              inr (λ e. rw (sym (move-SameSize m n q e h.kills.size)) (k.closed q alive b e))
          | inr dead ↦ elim (h.closed q a dead) [
            | inl e ↦ inl e
            | inr f ↦ inr (λ e. Kills-owned k.kills _ (f e))
          ]
        ];
        sides = (rw (sym same) k.start, Done-Kills ds n o _ k.kills h.sides);
      }

  Partial-end : (n : Map) → Partial p m c (right ∷ left ∷ down ∷ up ∷ []) n → Marked p m c n
  Partial-end n h = record {
    kills = h.kills;
    start = h.start;
    closed = λ q a b. elim (h.closed q a b) [
      | inl e ↦ rw e (
          every_direction (λ d. owned n p (map_move_in_direction m c d) ≡ false) h.sides.1.1.1.0
            h.sides.1.1.0 h.sides.1.0 h.sides.0 (λ k. rw (move_other m c k) h.sides.0))
      | inr f ↦ f
    ];
  }

  -- One of the four calls, by the promise `ih` for calls with this fuel.
  call :
      (fuel : ℕ)
      → ((n : Map) (b : Coordinates)
          → FitsU32 n
          → Inside n b
          → count_owned n p < fuel
          → (o : Map) × (mark_fuel fuel n p b ≡ ok o) × Marked p n b o)
      → FitsU32 m
      → Inside m c
      → (ds : List Direction) (n : Map) (d : Direction) → Partial p m c ds n
      → count_owned n p < fuel
      → (o : Map) × (mark_fuel fuel n p (map_move_in_direction n c d) ≡ ok o)
        × Partial p m c (d ∷ ds) o
        × (count_owned o p < fuel)
  unfolding SameSize
  call fuel ih fits inside ds n d h less =
      let fits' : FitsU32 n = omega (arith, h.kills.size) in
      let inside' : Inside n c = omega (arith, h.kills.size) in
      let (o, e, k) =
        ih n (map_move_in_direction n c d) fits' (move-Inside n c d fits' inside') less in
      (o, e, Partial-next ds n o d h k, omega (arith, Kills-count k.kills))

skips :
    (p : ℕ) (t : MapTile)
    → (not (is_type t.type tile_player) || not (t.player == p)) ≡ not (owns p t)
unfolding owns
skips p t = ground arith

Marked-none : (p : ℕ) (m : Map) (c : Coordinates) → owned m p c ≡ false → Marked p m c m
Marked-none p m c o = record {
  kills = Kills-refl p _ m;
  start = o;
  closed = λ q a b. let clash : true ≡ false = sym a ∙ b in cc;
}

-- With more fuel than the player has tiles, the call returns and keeps its promise.
mark_fuel-Marked :
    (fuel p : ℕ) (m : Map) (c : Coordinates)
    → FitsU32 m
    → Inside m c
    → count_owned m p < fuel
    → (n : Map) × (mark_fuel fuel m p c ≡ ok n) × Marked p m c n
unfolding mark_fuel
mark_fuel-Marked zero p m c fits inside less = elim less [ ]
mark_fuel-Marked (suc fuel) p m c fits inside less = elim (Bool-cases (owned m p c)) [
  | inr e ↦ (m, rw (skips p (tile_at m c), e), Marked-none p m c e)
  | inl e ↦
      let go = call p m c e fuel (λ n b. mark_fuel-Marked fuel p n b) fits inside in
      let m0 = map_set_tile_dead m c in
      let start : count_owned m0 p < fuel = omega (arith, set_dead-count m p c inside e) in
      let (m1, e1, h1, l1) = go [] m0 up (Partial-start p m c e) start in
      let (m2, e2, h2, l2) = go (up ∷ []) m1 down h1 l1 in
      let (m3, e3, h3, l3) = go (down ∷ up ∷ []) m2 left h2 l2 in
      let (m4, e4, h4, l4) = go (left ∷ down ∷ up ∷ []) m3 right h3 l3 in
      (m4, rw (skips p (tile_at m c), e, e1, e2, e3, e4), Partial-end p m c e m4 h4)
]

Marked-Reach :
    {p : ℕ} {m n : Map} {c q : Coordinates} → Marked p m c n → Reach m p c q → owned n p q ≡ false
Marked-Reach k (here o) = k.start
Marked-Reach {p} {m} {n} k (step {q} {r} w d e o) =
    rw e (k.closed q (Reach-owned w) (Marked-Reach k w) d)

-- The dead region of a player: exactly the tiles joined to the start have died, nothing else has
-- changed.
pub record Dies (p : ℕ) (m : Map) (c : Coordinates) (r : Outcome Map) : Type 0 where
  pub out : Map
  pub returns : r ≡ ok out
  pub same_width : out.width ≡ m.width
  pub same_height : out.height ≡ m.height
  pub changed :
      (q : Coordinates)
      → (tile_at out q ≡ tile_at m q)
        ⊎ (tile_at out q ≡ killed (tile_at m q)) × (owns p (tile_at m q) ≡ true) × Reach m p c q
  pub reached : (q : Coordinates) → Reach m p c q → tile_at out q ≡ killed (tile_at m q)
  pub others : (q : Coordinates) → ¬ Reach m p c q → tile_at out q ≡ tile_at m q

-- On a board whose size fits `coordinate_t`, and from a cell of the board,
-- `map_mark_player_as_dead` returns; each tile of the player that is joined to the start by tiles
-- of the player becomes a dead tile with its other fields kept, and every other tile and the size
-- are unchanged.
pub mark_player_as_dead-Dies :
    (m : Map) (p : ℕ) (c : Coordinates)
    → FitsU32 m
    → Inside m c
    → Dies p m c (map_mark_player_as_dead m p c)
unfolding map_mark_player_as_dead SameSize
mark_player_as_dead-Dies m p c fits inside =
    let (n, e, k) =
      mark_fuel-Marked (m.height * m.width + 1) p m c fits inside
        (omega (arith, count_owned-le m p)) in
    record {
      out = n;
      returns = e;
      same_width = k.kills.size.0;
      same_height = k.kills.size.1;
      changed = k.kills.changed;
      reached = λ q r. elim (k.kills.changed q) [
        | inl e ↦
            let clash : true ≡ false =
              sym (Reach-owned r) ∙ sym (ap (owns p) e) ∙ Marked-Reach k r in
            cc
        | inr (e, _, _) ↦ e
      ];
      others = λ q far. elim (k.kills.changed q) [ inl e ↦ e | inr (_, _, r) ↦ absurd (far r) ];
    }
