-- ===== src/Tests/Board.antt =====
-- The theorems on the board, at a small board.
use snake_posix.Common.{ℕ, ◌≡◌, refl, arith, if◌then◌else◌, Option}
use snake_posix.Common.Outcome.{ok}
use snake_posix.Geometry.{Coordinates, up, direction_get_opposite}
use snake_posix.Map.{
  map_move_in_direction, map_find_empty_neighbor, map_find_player_neighbor_with_lowest_order,
  map_template_has_wall, map_init_from_template,
}
use snake_posix.Map.Moves.{FitsU32, Inside, move-Inside, move-move_opposite}
use snake_posix.Map.Neighbors.{
  tile_at, EmptyNeighbor, map_find_empty_neighbor_lem, LowestNeighbor, find_lowest-LowestNeighbor,
}
use snake_posix.Map.Cells.{in_size, tile_of, map_init_from_template_lem}
use snake_posix.Map.Death.{map_mark_player_as_dead}
use snake_posix.Map.Death.Flood.{Dies, mark_player_as_dead-Dies}
use snake_posix.Map.Search.{map_find_random_matching_predicate}
use snake_posix.Map.Search.Promise.{FitsIndex}
use snake_posix.Map.Search.Complete.{Finds, find_random-Finds}
use snake_posix.Server.{map_tile_is_empty_predicate}
use snake_posix.Tests.{counting_rng, at, body, snake_map, dirty_template}

abbrev snake_FitsU32 : FitsU32 snake_map
snake_FitsU32 = omega arith

abbrev snake_FitsIndex : FitsIndex snake_map
snake_FitsIndex = record { sizes = snake_FitsU32; area = omega arith }

abbrev head_Inside : Inside snake_map (at 0 1)
head_Inside = omega arith

-- A step over the edge.
move_wraps : map_move_in_direction snake_map (at 0 1) up ≡ at 1 1
unfolding map_move_in_direction
move_wraps = refl

move-Inside_example : Inside snake_map (map_move_in_direction snake_map (at 0 1) up)
move-Inside_example = move-Inside snake_map (at 0 1) up snake_FitsU32 head_Inside

move-move_opposite_example :
    map_move_in_direction snake_map
      (map_move_in_direction snake_map (at 0 1) up)
      (direction_get_opposite up)
    ≡ at 0 1
move-move_opposite_example = move-move_opposite snake_map (at 0 1) up snake_FitsU32 head_Inside

map_find_empty_neighbor_lem_example :
    EmptyNeighbor snake_map (at 0 1) (map_find_empty_neighbor snake_map (at 0 1))
map_find_empty_neighbor_lem_example = map_find_empty_neighbor_lem snake_map (at 0 1)

find_lowest-LowestNeighbor_example :
    LowestNeighbor snake_map 1
      (at 0 3)
      (map_find_player_neighbor_with_lowest_order snake_map 1 (at 0 3))
find_lowest-LowestNeighbor_example = find_lowest-LowestNeighbor snake_map 1 (at 0 3)

mark_player_as_dead-Dies_example :
    Dies 1 snake_map (at 0 1) (map_mark_player_as_dead snake_map 1 (at 0 1))
mark_player_as_dead-Dies_example =
    mark_player_as_dead-Dies snake_map 1 (at 0 1) snake_FitsU32 head_Inside

find_random-Finds_example :
    (r : Option Coordinates × ℕ) × (map_find_random_matching_predicate counting_rng snake_map
        map_tile_is_empty_predicate 0
      ≡ ok r)
    × Finds counting_rng snake_map map_tile_is_empty_predicate snake_FitsIndex r
find_random-Finds_example =
    find_random-Finds counting_rng snake_map map_tile_is_empty_predicate snake_FitsIndex 0
      (omega arith) (omega arith)

map_init_from_template_lem_example :
    (tile_at (map_init_from_template snake_map dirty_template) (at 0 1) ≡ (
      if in_size 9 9 (at 0 1)
      then tile_of (map_template_has_wall dirty_template (at 0 1))
      else body 1 7))
    × ((map_init_from_template snake_map dirty_template).width ≡ 9)
    × ((map_init_from_template snake_map dirty_template).height ≡ 9)
map_init_from_template_lem_example = map_init_from_template_lem snake_map dirty_template (at 0 1)
