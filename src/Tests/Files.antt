-- ===== src/Tests/Files.antt =====
-- The loader of a map, from a file of ten times ten characters.
use snake_posix.Common.{
  ℕ, zero, suc, ◌+◌, ◌≡◌, refl, sym, subst, ◌==◌, if◌then◌else◌, Option, none, some, List, [], ◌∷◌,
}
use snake_posix.Common.Outcome.{Returns}
use snake_posix.Loader.{Scanner, map_loader_load_template_from_file}
use snake_posix.Loader.Loading.{after, HoldsRow, HoldsRows, HoldsMap}
use snake_posix.Loader.Limits.{Loaded, load_template-Loaded}
use snake_posix.Tests.{dirty_template}

abbrev pub next_character : List ℕ → Option ℕ × List ℕ
next_character [] = (none, [])
next_character (c ∷ l) = (some c, l)

-- A file is the list of its characters behind the two numbers.
abbrev pub listed_file : Scanner
listed_file = record {
  File = List ℕ;
  scan_dimensions = λ f. (some (10, 10), f);
  scan_char = next_character;
}

-- A wall in each cell of the first row and column.
abbrev pub walled : ℕ → ℕ → ℕ
walled r c = if r == 0 then 35 else (if c == 0 then 35 else 46)

abbrev row_of : ℕ → ℕ → ℕ → List ℕ → List ℕ
row_of r c zero l = l
row_of r c (suc n) l = walled r c ∷ row_of r (c + 1) n l

abbrev rows_of : ℕ → ℕ → List ℕ
rows_of r zero = []
rows_of r (suc n) = row_of r 0 10 (rows_of (r + 1) n)

abbrev pub map_file : List ℕ
map_file = rows_of 0 10

row_of-HoldsRow :
    (n r c : ℕ) (l : List ℕ)
    → HoldsRow listed_file walled r c n (row_of r c n l)
      × (after listed_file n (row_of r c n l) ≡ l)
row_of-HoldsRow zero r c l = (tt, refl)
row_of-HoldsRow (suc n) r c l = let (h, e) = row_of-HoldsRow n r (c + 1) l in ((refl, h), e)

rows_of-HoldsRows : (n r : ℕ) → HoldsRows listed_file walled 10 r n (rows_of r n)
rows_of-HoldsRows zero r = tt
rows_of-HoldsRows (suc n) r =
    let (h, e) = row_of-HoldsRow 10 r 0 (rows_of (r + 1) n) in
    (h, subst (HoldsRows listed_file walled 10 (r + 1) n) (sym e) (rows_of-HoldsRows n (r + 1)))

pub map_file-HoldsMap : HoldsMap listed_file 10 10 walled map_file
map_file-HoldsMap = record { dimensions = refl; rows = rows_of-HoldsRows 10 0 }

load_template-Loaded_example :
    Returns
      (map_loader_load_template_from_file listed_file dirty_template (some map_file))
      (Loaded 10 10 walled)
load_template-Loaded_example =
    load_template-Loaded dirty_template 10 10 walled map_file map_file-HoldsMap
