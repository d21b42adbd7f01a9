-- ===== src/Map.antt =====
-- `libsnake/map/map.{h,c}` and `libsnake/map/map_template.{h,c}`: the board, its tiles, one step
-- over the torus, and the two loops over the neighbours of a tile. The recursive searches are in
-- `Map/Death.antt` and `Map/Search.antt`.
pub mod Moves
pub mod Neighbors
pub mod Cells
pub mod Death
pub mod Search
use package.snake_posix.Common.{
  ℕ, zero, suc, ◌+◌, ◌-◌, ◌*◌, ◌/◌, ◌%◌, ◌^◌, ◌≤◌, ◌<◌, ◌≡◌, refl, sym, ap, ◌∙◌, subst, ◌≢◌, ◌↔◌,
  ◌⊎◌, inl, inr, arith, Bool, true, false, not, ◌&&◌, ◌||◌, ◌==◌, ltb, leb, if◌then◌else◌, if_intro,
  Bool-cases, ==-refl, ==→≡, ==→≢, Option, none, some, Option-cases, List, [], ◌∷◌, ◌++◌, add32,
  sub32,
}
use package.snake_posix.Common.Loops.{for_range}
use package.snake_posix.Geometry.{Coordinates, Direction, up, left, down, right, direction_eq}

-- `constants.h`
abbrev pub max_players : ℕ
max_players = 64

abbrev pub min_map_width : ℕ
min_map_width = 10

abbrev pub min_map_height : ℕ
min_map_height = 10

abbrev pub max_map_width : ℕ
max_map_width = 100

abbrev pub max_map_height : ℕ
max_map_height = 50

-- `map_template_t`. An array is a function of its indices.
pub record MapTemplate : Type 0 where
  pub walls : ℕ → ℕ → Bool
  pub width : ℕ
  pub height : ℕ

abbrev pub write_cell {ℓ} : {A : Type ℓ} → (ℕ → ℕ → A) → ℕ → ℕ → A → ℕ → ℕ → A
write_cell f r k a i j = if i == r && j == k then a else f i j

-- The memory that `malloc` returns is `self`.
unfoldable pub map_template_init : MapTemplate → ℕ → ℕ → MapTemplate
unfolding for_range
map_template_init self width height =
    for_range height 0
      (λ i t. for_range width 0 (λ j u. record u { walls = write_cell u.walls i j false }) t)
      (record self { width = width; height = height })

unfoldable pub map_template_has_wall : MapTemplate → Coordinates → Bool
map_template_has_wall self coordinates = self.walls coordinates.row coordinates.column

unfoldable pub map_template_set_wall : MapTemplate → Coordinates → MapTemplate
map_template_set_wall self coordinates = record self {
  walls = write_cell self.walls coordinates.row coordinates.column true;
}

-- `map_tile_type_t`. `tile_other n` is the value n + 5 of the C type, which only a received message
-- can hold.
pub data MapTileType : Type 0 where
  tile_empty tile_player tile_fruit tile_wall tile_dead : MapTileType
  tile_other : ℕ → MapTileType

abbrev pub tile_code : MapTileType → ℕ
tile_code tile_empty = 0
tile_code tile_player = 1
tile_code tile_fruit = 2
tile_code tile_wall = 3
tile_code tile_dead = 4
tile_code (tile_other n) = n + 5

-- The value of the type with a given code: a cast to `map_tile_type_t`.
unfoldable pub tile_type_of_code : ℕ → MapTileType
tile_type_of_code k =
    if k == 0
    then tile_empty
    else (if k == 1
        then tile_player
        else (if k == 2
            then tile_fruit
            else (if k == 3
                then tile_wall
                else (if k == 4 then tile_dead else tile_other (k - 5)))))

pub tile_type_of_code-tile_code : (t : MapTileType) → tile_type_of_code (tile_code t) ≡ t
unfolding tile_type_of_code
tile_type_of_code-tile_code tile_empty = refl
tile_type_of_code-tile_code tile_player = refl
tile_type_of_code-tile_code tile_fruit = refl
tile_type_of_code-tile_code tile_wall = refl
tile_type_of_code-tile_code tile_dead = refl
tile_type_of_code-tile_code (tile_other n) = ground arith

abbrev pub is_type : MapTileType → MapTileType → Bool
is_type a b = tile_code a == tile_code b

-- `map_tile_t`
pub record MapTile : Type 0 where
  pub order : ℕ
  pub type : MapTileType
  pub player : ℕ

-- `map_t`
pub record Map : Type 0 where
  pub tiles : ℕ → ℕ → MapTile
  pub width : ℕ
  pub height : ℕ

unfoldable pub map_get_tile_state : Map → Coordinates → MapTile
map_get_tile_state self coordinates = self.tiles coordinates.row coordinates.column

unfoldable pub map_set_tile_state : Map → Coordinates → MapTile → Map
map_set_tile_state self coordinates tile = record self {
  tiles = write_cell self.tiles coordinates.row coordinates.column tile;
}

-- The writes to the single field `type_` of a tile.
abbrev pub write_type : Map → Coordinates → MapTileType → Map
write_type self coordinates t =
    let tile = self.tiles coordinates.row coordinates.column in
    record self {
      tiles = write_cell self.tiles coordinates.row coordinates.column (record tile { type = t });
    }

unfoldable pub map_init : Map → ℕ → ℕ → Map
unfolding for_range
map_init self width height =
    for_range height 0
      (λ i m. for_range width 0 (λ j u. write_type u (record { row = i; column = j }) tile_empty) m)
      (record self { width = width; height = height })

unfoldable pub map_init_from_template : Map → MapTemplate → Map
unfolding for_range map_template_has_wall
map_init_from_template self template =
    for_range template.height 0
      (λ i m.
        for_range template.width 0
          (λ j u. record u {
            tiles = write_cell u.tiles i j (record {
              order = 0;
              type =
                  if map_template_has_wall template (record { row = i; column = j })
                  then tile_wall
                  else tile_empty;
              player = 0;
            });
          })
          m)
      (record self { width = template.width; height = template.height })

unfoldable pub map_is_tile_empty : Map → Coordinates → Bool
map_is_tile_empty self coordinates =
    is_type (self.tiles coordinates.row coordinates.column).type tile_empty

unfoldable pub map_is_tile_dead : Map → Coordinates → Bool
map_is_tile_dead self coordinates =
    is_type (self.tiles coordinates.row coordinates.column).type tile_dead

unfoldable pub map_set_tile_empty : Map → Coordinates → Map
map_set_tile_empty self coordinates = write_type self coordinates tile_empty

unfoldable pub map_set_tile_player : Map → Coordinates → ℕ → ℕ → Map
map_set_tile_player self coordinates player order = record self {
  tiles =
      write_cell self.tiles coordinates.row coordinates.column
        (record { order = order; type = tile_player; player = player });
}

unfoldable pub map_set_tile_fruit : Map → Coordinates → Map
map_set_tile_fruit self coordinates = write_type self coordinates tile_fruit

unfoldable pub map_set_tile_wall : Map → Coordinates → Map
map_set_tile_wall self coordinates = write_type self coordinates tile_wall

unfoldable pub map_set_tile_dead : Map → Coordinates → Map
map_set_tile_dead self coordinates = write_type self coordinates tile_dead

-- The torus step, in unsigned 32-bit arithmetic.
unfoldable pub map_move_in_direction : Map → Coordinates → Direction → Coordinates
unfolding direction_eq
map_move_in_direction self coordinates direction =
    if direction_eq direction up || direction_eq direction down
    then (if direction_eq direction up
        then record coordinates {
          row = if coordinates.row == 0 then sub32 self.height 1 else sub32 coordinates.row 1;
        }
        else record coordinates {
          row = if coordinates.row == sub32 self.height 1 then 0 else add32 coordinates.row 1;
        })
    else (if direction_eq direction left
        then record coordinates {
          column =
              if coordinates.column == 0 then sub32 self.width 1 else sub32 coordinates.column 1;
        }
        else record coordinates {
          column =
              if coordinates.column == sub32 self.width 1 then 0 else add32 coordinates.column 1;
        })

-- The two variables `best_coordinates` and `best_tile`, NULL together.
abbrev pub Best : Type 0
Best = Option (Coordinates × MapTile)

abbrev pub is_better : MapTile → Best → Bool
is_better tile none = true
is_better tile (some (_, best_tile)) = ltb tile.order best_tile.order

-- The macro `MAP_ASSIGN_BETTER_TILE`.
pub assign_better_tile : Map → ℕ → Coordinates → Direction → Best → Best
assign_better_tile self player coordinates direction best =
    let coords = map_move_in_direction self coordinates direction in
    let tile = self.tiles coords.row coords.column in
    if is_type tile.type tile_player && tile.player == player && is_better tile best
    then some (coords, tile)
    else best

-- `none` is the result false.
unfoldable pub map_find_player_neighbor_with_lowest_order :
    Map → ℕ → Coordinates → Option Coordinates
map_find_player_neighbor_with_lowest_order self player coordinates =
    let b1 = assign_better_tile self player coordinates up none in
    let b2 = assign_better_tile self player coordinates down b1 in
    let b3 = assign_better_tile self player coordinates left b2 in
    let b4 = assign_better_tile self player coordinates right b3 in
    elim b4 [ none ↦ none | some (coords, tile) ↦ some coords ]

-- The macro `MAP_FIND_EMPTY_TILE`, with what follows it.
abbrev find_empty_tile :
    Map
    → Coordinates
    → Direction
    → Option (Coordinates × Direction)
    → Option (Coordinates × Direction)
find_empty_tile self coordinates direction rest =
    let coords = map_move_in_direction self coordinates direction in
    if is_type (self.tiles coords.row coords.column).type tile_empty
    then some (coords, direction)
    else rest

-- `none` is the result false.
unfoldable pub map_find_empty_neighbor : Map → Coordinates → Option (Coordinates × Direction)
map_find_empty_neighbor self coordinates = find_empty_tile self coordinates up (
    find_empty_tile self coordinates down
      (find_empty_tile self coordinates left (find_empty_tile self coordinates right none)))
