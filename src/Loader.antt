-- ===== src/Loader.antt =====
-- `server/map_loader.{h,c}`: the template of a map, empty or from a file.
pub mod Loading
pub mod Limits
use package.snake_posix.Common.{
  ℕ, zero, suc, ◌+◌, ◌-◌, ◌*◌, ◌/◌, ◌%◌, ◌^◌, ◌≤◌, ◌<◌, ◌≡◌, refl, sym, ap, ◌∙◌, subst, ◌≢◌, ◌↔◌,
  ◌⊎◌, inl, inr, arith, Bool, true, false, not, ◌&&◌, ◌||◌, ◌==◌, ltb, leb, if◌then◌else◌, if_intro,
  Bool-cases, ==-refl, ==→≡, ==→≢, Option, none, some, Option-cases, List, [], ◌∷◌, ◌++◌,
}
use package.snake_posix.Common.Outcome.{Outcome, ok, undefined, ◌>>=◌}
use package.snake_posix.Geometry.{Coordinates}
use package.snake_posix.Map.{
  MapTemplate, map_template_init, map_template_set_wall, min_map_width, min_map_height,
  max_map_width, max_map_height,
}

-- What the loader relies on: `fscanf` with the format for two numbers and with the one for a
-- character. `none` is a variable that was not assigned.
pub record Scanner : Type 1 where
  pub File : Type 0
  pub scan_dimensions : File → Option (ℕ × ℕ) × File
  pub scan_char : File → Option ℕ × File

-- The memory that `malloc` returns is `memory`.
unfoldable pub map_loader_create_empty_template : MapTemplate → ℕ → ℕ → MapTemplate
map_loader_create_empty_template memory width height = map_template_init memory width height

-- The character of a wall.
abbrev pub wall_char : ℕ
wall_char = 35

-- The test on the dimensions, in its two parts.
unfoldable pub in_limits : ℕ → ℕ → Bool
in_limits width height =
    not (ltb width min_map_width || ltb height min_map_height)
    && not (ltb max_map_width width || ltb max_map_height height)

module _ (s : Scanner) where
  -- The body of the loops, at row i and column j.
  unfoldable pub load_cell : ℕ → ℕ → MapTemplate → s.File → Outcome (MapTemplate × s.File)
  load_cell i j template file =
      let (c, rest) = s.scan_char file in
      elim c [
        | none ↦ undefined
        | some c ↦ ok (
          if c == wall_char
              then map_template_set_wall template (record { row = i; column = j })
              else template,
          rest,
        )
      ]

  -- `n` columns from column j, and `n` rows from row i.
  unfoldable pub load_row : ℕ → ℕ → ℕ → MapTemplate → s.File → Outcome (MapTemplate × s.File)
  load_row zero i j template file = ok (template, file)
  load_row (suc n) i j template file =
      load_cell i j template file >>= λ (t, f). load_row n i (j + 1) t f

  unfoldable pub load_rows : ℕ → ℕ → ℕ → MapTemplate → s.File → Outcome (MapTemplate × s.File)
  load_rows zero width i template file = ok (template, file)
  load_rows (suc n) width i template file =
      load_row width i 0 template file >>= λ (t, f). load_rows n width (i + 1) t f

  -- The file is what `fopen` gives. Outside, `none` is the result NULL.
  unfoldable pub map_loader_load_template_from_file :
      MapTemplate → Option s.File → Outcome (Option MapTemplate)
  map_loader_load_template_from_file memory none = ok none
  map_loader_load_template_from_file memory (some file) =
      let (dimensions, rest) = s.scan_dimensions file in
      elim dimensions [
        | none ↦ undefined
        | some d ↦
            if in_limits d.0 d.1
            then (load_rows d.1 d.0 0 (map_loader_create_empty_template memory d.0 d.1) rest
                >>= λ r. ok (some r.0))
            else ok none
      ]
