-- ===== src/Loader/Limits.antt =====
-- What `map_loader_load_template_from_file` makes of the file of a map.
use snake_posix.Common.{
  ℕ, ◌*◌, ◌^◌, ◌≤◌, ◌<◌, ◌≡◌, refl, ◌∙◌, ◌⊎◌, arith, true, false, ◌&&◌, ◌==◌, ltb, if_intro, Option,
  none, some,
}
use snake_posix.Common.Outcome.{ok, Returns, Returns->>=}
use snake_posix.Map.{
  MapTemplate, map_template_init, map_template_has_wall, max_map_width, max_map_height,
}
use snake_posix.Map.Cells.{map_template_init_lem}
use snake_posix.Server.Start.{IsTemplate}
use snake_posix.Loader.{
  Scanner, in_limits, load_rows, map_loader_create_empty_template,
  map_loader_load_template_from_file,
}
use snake_posix.Loader.Loading.{HoldsMap, passed, load_rows-Loading}

-- What the loader gives for a map of a width and a height: nothing, if one is out of the limits, or
-- else a template of that size, with a wall exactly where the file has the character for one.
pub data Loaded (width height : ℕ) (cells : ℕ → ℕ → ℕ) : Option MapTemplate → Type 0 where
  refused :
      (width < 10) ⊎ (height < 10) ⊎ (100 < width) ⊎ (50 < height) → Loaded width height cells none
  template :
      (t : MapTemplate)
      → 10 ≤ width
      → width ≤ 100
      → 10 ≤ height
      → height ≤ 50
      → t.width ≡ width
      → t.height ≡ height
      → ((r c : ℕ)
          → r < height
          → c < width
          → map_template_has_wall t (record { row = r; column = c }) ≡ (cells r c == b'#'))
      → Loaded width height cells (some t)

limits-refused : (w h : ℕ) → in_limits w h ≡ false → (w < 10) ⊎ (h < 10) ⊎ (100 < w) ⊎ (50 < h)
unfolding in_limits
limits-refused w h e = ground arith

limits_lem : (w h : ℕ) → in_limits w h ≡ true → (10 ≤ w) × (w ≤ 100) × (10 ≤ h) × (h ≤ 50)
unfolding in_limits
limits_lem w h e = (ground arith, ground arith, ground arith, ground arith)

passed_all : (r c h : ℕ) → r < h → passed h 0 r c ≡ true
passed_all r c h l = ground arith

passed_none : (r c : ℕ) → passed 0 0 r c ≡ false
passed_none r c = ground arith

-- From a file of a map, whatever memory the template gets, the loader returns; it gives nothing exactly
-- if the width is not from 10 to 100, or the height not from 10 to 50, and else a template of that size,
-- with a wall exactly where the file has a `#`; it does not read what it has not scanned.
pub load_template-Loaded :
    {s : Scanner} (memory : MapTemplate) (width height : ℕ) (cells : ℕ → ℕ → ℕ) (file : s.File)
    → HoldsMap s width height cells file
    → Returns (map_loader_load_template_from_file s memory (some file)) (Loaded width height cells)
unfolding map_loader_load_template_from_file map_loader_create_empty_template map_template_has_wall
load_template-Loaded {s} memory width height cells file holds =
    let start = map_template_init_lem memory width height in
    rw (holds.dimensions, map_loader_load_template_from_file)
      (if_intro (λ o. Returns o (Loaded width height cells)) (in_limits width height) _ (ok none)
        (λ fits.
          let (a, b, c, d) = limits_lem width height fits in
          Returns->>= (load_rows s height width 0 _ _) _ _ _
            (load_rows-Loading s width height cells height 0 height
              (map_template_init memory width height) (s.scan_dimensions file).1 (omega arith)
              (record {
                wide = (start (record { row = 0; column = 0 })).1;
                tall = (start (record { row = 0; column = 0 })).2;
                walls = λ r c lr lc.
                    let inside : (ltb r height && ltb c width) ≡ true = ground arith in
                    (start (record { row = r; column = c })).0 ∙ rw (inside, passed_none r c) refl;
              })
              holds.rows)
            (λ (t, f) h.
              template t a b c d h.wide h.tall
                (λ r c lr lc. h.walls r c lr lc ∙ rw (passed_all r c height lr) refl)))
        (λ out. refused (limits-refused width height out)))

pub area : (w h : ℕ) → w ≤ 100 → h ≤ 50 → h * w < 2 ^ 31
area w h a b = grind arith

-- A game can start with the template, and its board is within the arrays of `map_t`.
abbrev pub Playable : MapTemplate → Type 0
Playable t = IsTemplate t × (t.width ≤ max_map_width) × (t.height ≤ max_map_height)

pub Loaded-Playable :
    (width height : ℕ) (cells : ℕ → ℕ → ℕ) (t : MapTemplate)
    → Loaded width height cells (some t)
    → Playable t
Loaded-Playable w h cells t (template u a b c d wide tall walls) = (
  record {
    tall = omega (arith, tall);
    wide = omega (arith, wide);
    height_fits = omega (arith, tall);
    width_fits = omega (arith, wide);
    area_fits = rw (wide, tall) (area w h b d);
  },
  omega (arith, wide),
  omega (arith, tall),
)

-- What `fopen` gives is a file of a map, if it is any.
abbrev pub IsMapFile : (s : Scanner) → Option s.File → Type 0
IsMapFile s none = Unit
IsMapFile s (some file) =
    (width : ℕ) × (height : ℕ) × (cells : ℕ → ℕ → ℕ) × HoldsMap s width height cells file
