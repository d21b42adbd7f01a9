-- ===== src/Map/Cells.antt =====
-- What the loops of `map_template_init`, `map_init` and `map_init_from_template` leave in each cell.
use snake_posix.Common.{ℕ, ◌≡◌, refl, Bool, false, ◌&&◌, ltb, if◌then◌else◌}
use snake_posix.Common.Loops.{for_grid_lem, for_grid_keeps}
use snake_posix.Geometry.{Coordinates}
use snake_posix.Map.{
  Map, MapTile, MapTemplate, tile_empty, tile_wall, write_cell, write_type, map_template_init,
  map_template_has_wall, map_init, map_init_from_template,
}
use snake_posix.Map.Neighbors.{tile_at}

abbrev pub in_size : ℕ → ℕ → Coordinates → Bool
in_size width height q = ltb q.row height && ltb q.column width

abbrev pub emptied : MapTile → MapTile
emptied t = record t { type = tile_empty }

-- The tile that a template cell becomes.
abbrev pub tile_of : Bool → MapTile
tile_of wall = record { order = 0; type = if wall then tile_wall else tile_empty; player = 0 }

-- After `map_template_init` the template has the given size, each cell within it has no wall, and
-- the memory outside keeps what it held.
pub map_template_init_lem :
    (self : MapTemplate) (width height : ℕ) (q : Coordinates)
    → (map_template_has_wall (map_template_init self width height) q
        ≡ (if in_size width height q then false else map_template_has_wall self q))
      × ((map_template_init self width height).width ≡ width)
      × ((map_template_init self width height).height ≡ height)
unfolding map_template_init map_template_has_wall
map_template_init_lem self width height q = (
  for_grid_lem {S = MapTemplate} {A = Bool} (λ t. t.walls) (λ i j a. false)
      (λ i j u. record u { walls = write_cell u.walls i j false }) (λ i j s r c. refl) height width
      (record self { width = width; height = height }) q.row q.column,
  for_grid_keeps {S = MapTemplate} (λ t. t.width) _ (λ i j s. refl) height width _,
  for_grid_keeps {S = MapTemplate} (λ t. t.height) _ (λ i j s. refl) height width _,
)

-- After `map_init` the map has the given size, each cell within it is empty with its other fields
-- kept, and the cells outside keep what they held.
pub map_init_lem :
    (self : Map) (width height : ℕ) (q : Coordinates)
    → (tile_at (map_init self width height) q
        ≡ (if in_size width height q then emptied (tile_at self q) else tile_at self q))
      × ((map_init self width height).width ≡ width)
      × ((map_init self width height).height ≡ height)
unfolding map_init
map_init_lem self width height q = (
  for_grid_lem {S = Map} {A = MapTile} (λ t. t.tiles) (λ i j t. emptied t)
      (λ i j u. write_type u (record { row = i; column = j }) tile_empty) (λ i j s r c. refl) height
      width (record self { width = width; height = height }) q.row q.column,
  for_grid_keeps {S = Map} (λ t. t.width) _ (λ i j s. refl) height width _,
  for_grid_keeps {S = Map} (λ t. t.height) _ (λ i j s. refl) height width _,
)

-- After `map_init_from_template` the map has the size of the template, each cell within it is a
-- wall where the template has one and empty elsewhere, with order and player 0, and the cells
-- outside keep what they held.
pub map_init_from_template_lem :
    (self : Map) (template : MapTemplate) (q : Coordinates)
    → (tile_at (map_init_from_template self template) q ≡ (
        if in_size template.width template.height q
        then tile_of (map_template_has_wall template q)
        else tile_at self q))
      × ((map_init_from_template self template).width ≡ template.width)
      × ((map_init_from_template self template).height ≡ template.height)
unfolding map_init_from_template
map_init_from_template_lem self template q = (
  for_grid_lem {S = Map} {A = MapTile} (λ t. t.tiles)
      (λ i j t. tile_of (map_template_has_wall template (record { row = i; column = j })))
      (λ i j u. record u {
        tiles =
            write_cell u.tiles i j
              (tile_of (map_template_has_wall template (record { row = i; column = j })));
      })
      (λ i j s r c. refl) template.height template.width
      (record self { width = template.width; height = template.height }) q.row q.column,
  for_grid_keeps {S = Map} (λ t. t.width) _ (λ i j s. refl) template.height template.width _,
  for_grid_keeps {S = Map} (λ t. t.height) _ (λ i j s. refl) template.height template.width _,
)
