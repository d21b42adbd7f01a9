-- ===== src/Loader/Loading.antt =====
-- The loops of `map_loader_load_template_from_file` over the file of a map.
use snake_posix.Common.{
  ℕ, zero, suc, ◌+◌, ◌<◌, ◌≡◌, refl, sym, ◌∙◌, subst, inl, inr, arith, Bool, true, false, ◌&&◌,
  ◌||◌, ◌==◌, ltb, if_intro, Bool-cases, ==→≡, some,
}
use snake_posix.Common.Outcome.{Returns, Returns->>=}
use snake_posix.Map.{MapTemplate, map_template_set_wall}
use snake_posix.Loader.{Scanner, load_cell, load_row, load_rows}

-- The state of the file after `n` characters.
abbrev pub after : (s : Scanner) → ℕ → s.File → s.File
after s zero f = f
after s (suc n) f = after s n (s.scan_char f).1

-- The file gives the next `n` characters of a row, from column j, and `n` rows from row i.
abbrev pub HoldsRow : (s : Scanner) → (ℕ → ℕ → ℕ) → ℕ → ℕ → ℕ → s.File → Type 0
HoldsRow s cells i j zero f = Unit
HoldsRow s cells i j (suc n) f =
    ((s.scan_char f).0 ≡ some (cells i j)) × HoldsRow s cells i (j + 1) n (s.scan_char f).1

abbrev pub HoldsRows : (s : Scanner) → (ℕ → ℕ → ℕ) → ℕ → ℕ → ℕ → s.File → Type 0
HoldsRows s cells width i zero f = Unit
HoldsRows s cells width i (suc n) f =
    HoldsRow s cells i 0 width f × HoldsRows s cells width (i + 1) n (after s width f)

-- A file of a map: a width and a height, and then a character for each cell, row by row.
pub record HoldsMap (s : Scanner) (width height : ℕ) (cells : ℕ → ℕ → ℕ) (file : s.File)
    : Type 0 where
  pub dimensions : (s.scan_dimensions file).0 ≡ some (width, height)
  pub rows : HoldsRows s cells width 0 height (s.scan_dimensions file).1

-- The cells before column j of row i.
abbrev pub passed : ℕ → ℕ → ℕ → ℕ → Bool
passed i j r c = ltb r i || (r == i && ltb c j)

-- The cells before column j of row i have the walls that the file has, and the others have none.
pub record Loading (width height : ℕ) (cells : ℕ → ℕ → ℕ) (i j : ℕ) (t : MapTemplate) : Type 0 where
  pub wide : t.width ≡ width
  pub tall : t.height ≡ height
  pub walls :
      (r c : ℕ) → r < height → c < width → t.walls r c ≡ (passed i j r c && (cells r c == b'#'))

passed_there : (r c i j : ℕ) → (r == i) ≡ true → (c == j) ≡ true → passed i (j + 1) r c ≡ true
passed_there r c i j e f = ground arith

passed_elsewhere :
    (r c i j : ℕ) → (r == i && c == j) ≡ false → passed i (j + 1) r c ≡ passed i j r c
passed_elsewhere r c i j e = ground arith

passed_row : (r c i width : ℕ) → c < width → passed (i + 1) 0 r c ≡ passed i width r c
passed_row r c i width l = ground arith

module _ (s : Scanner) (width height : ℕ) (cells : ℕ → ℕ → ℕ) where
  abbrev At : ℕ → ℕ → MapTemplate → Type 0
  At = Loading width height cells

  set-Loading :
      (i j : ℕ) (t : MapTemplate)
      → At i j t
      → (cells i j == b'#') ≡ true
      → At i (j + 1) (map_template_set_wall t (record { row = i; column = j }))
  unfolding map_template_set_wall
  set-Loading i j t h e = record {
    wide = h.wide;
    tall = h.tall;
    walls = λ r c lr lc. elim (Bool-cases (r == i && c == j)) [
      | inl there ↦
          let at_row : (r == i) ≡ true = ground arith in
          let at_column : (c == j) ≡ true = ground arith in
          let wall : (cells r c == b'#') ≡ true =
            subst (λ x. (cells x c == b'#') ≡ true) (sym (==→≡ r i at_row))
              (subst (λ y. (cells i y == b'#') ≡ true) (sym (==→≡ c j at_column)) e) in
          rw (there, passed_there r c i j at_row at_column, wall) refl
      | inr ne ↦ rw (ne, passed_elsewhere r c i j ne) (h.walls r c lr lc)
    ];
  }

  keep-Loading :
      (i j : ℕ) (t : MapTemplate) → At i j t → (cells i j == b'#') ≡ false → At i (j + 1) t
  keep-Loading i j t h e = record {
    wide = h.wide;
    tall = h.tall;
    walls = λ r c lr lc. elim (Bool-cases (r == i && c == j)) [
      | inl there ↦
          let at_row : (r == i) ≡ true = ground arith in
          let at_column : (c == j) ≡ true = ground arith in
          let empty : (cells r c == b'#') ≡ false =
            subst (λ x. (cells x c == b'#') ≡ false) (sym (==→≡ r i at_row))
              (subst (λ y. (cells i y == b'#') ≡ false) (sym (==→≡ c j at_column)) e) in
          h.walls r c lr lc ∙ ground (arith, empty)
      | inr ne ↦ rw (passed_elsewhere r c i j ne) (h.walls r c lr lc)
    ];
  }

  load_cell-Loading :
      (i j : ℕ) (t : MapTemplate) (f : s.File)
      → At i j t
      → (s.scan_char f).0 ≡ some (cells i j)
      → Returns (load_cell s i j t f) (λ (t', f'). At i (j + 1) t' × (f' ≡ (s.scan_char f).1))
  unfolding load_cell
  load_cell-Loading i j t f h e =
      let kept =
        if_intro (At i (j + 1)) (cells i j == b'#') _ t (set-Loading i j t h)
          (keep-Loading i j t h) in
      rw (e, load_cell, Returns) (kept, refl)

  load_row-Loading :
      (n i j k : ℕ) (t : MapTemplate) (f : s.File)
      → j + n ≡ k
      → At i j t
      → HoldsRow s cells i j n f
      → Returns (load_row s n i j t f) (λ (t', f'). At i k t' × (f' ≡ after s n f))
  unfolding load_row
  load_row-Loading zero i j k t f e h holds = (subst (λ x. At i x t) (omega arith) h, refl)
  load_row-Loading (suc n) i j k t f e h (next, holds) =
      Returns->>= (load_cell s i j t f) _ _ _ (load_cell-Loading i j t f h next)
        (λ (t', f') (h', same).
          subst
            (λ g.
              Returns (load_row s n i (j + 1) t' g)
                (λ (t'', f''). At i k t'' × (f'' ≡ after s n (s.scan_char f).1)))
            (sym same) (load_row-Loading n i (j + 1) k t' (s.scan_char f).1 (omega arith) h' holds))

  next_row-Loading : (i : ℕ) (t : MapTemplate) → At i width t → At (i + 1) 0 t
  next_row-Loading i t h = record {
    wide = h.wide;
    tall = h.tall;
    walls = λ r c lr lc. rw (passed_row r c i width lc) (h.walls r c lr lc);
  }

  pub load_rows-Loading :
      (n i k : ℕ) (t : MapTemplate) (f : s.File)
      → i + n ≡ k
      → At i 0 t
      → HoldsRows s cells width i n f
      → Returns (load_rows s n width i t f) (λ (t', f'). At k 0 t')
  unfolding load_rows
  load_rows-Loading zero i k t f e h holds = subst (λ x. At x 0 t) (omega arith) h
  load_rows-Loading (suc n) i k t f e h (row, rows) =
      Returns->>= (load_row s width i 0 t f) _ _ _
        (load_row-Loading width i 0 width t f (omega arith) h row)
        (λ (t', f') (h', same).
          load_rows-Loading n (i + 1) k t' f' (omega arith) (next_row-Loading i t' h')
            (subst (HoldsRows s cells width (i + 1) n) (sym same) rows))
