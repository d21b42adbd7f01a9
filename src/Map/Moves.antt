-- ===== src/Map/Moves.antt =====
-- `map_move_in_direction`: the cells of a board, and the step over the torus.
use snake_posix.Common.{◌<◌, ◌^◌, ◌≡◌, arith}
use snake_posix.Geometry.{
  Coordinates, Direction, up, left, down, right, other, direction_get_opposite,
}
use snake_posix.Map.{Map, map_move_in_direction}

abbrev pub Inside : Map → Coordinates → Type 0
Inside m c = (c.row < m.height) × (c.column < m.width)

-- A size that fits the 32-bit `coordinate_t`.
abbrev pub FitsU32 : Map → Type 0
FitsU32 m = (m.width < 2 ^ 32) × (m.height < 2 ^ 32)

-- On a board of any size that fits `coordinate_t`, a step in any direction from a cell of the
-- board ends on a cell of the board.
pub move-Inside :
    (m : Map) (c : Coordinates) (d : Direction)
    → FitsU32 m
    → Inside m c
    → Inside m (map_move_in_direction m c d)
unfolding map_move_in_direction
move-Inside m c up f i = ground arith
move-Inside m c left f i = ground arith
move-Inside m c down f i = ground arith
move-Inside m c right f i = ground arith
move-Inside m c (other n) f i = ground arith

-- From a cell of the board, a step in a direction followed by a step in its opposite is no move.
pub move-move_opposite :
    (m : Map) (c : Coordinates) (d : Direction)
    → FitsU32 m
    → Inside m c
    → map_move_in_direction m (map_move_in_direction m c d) (direction_get_opposite d) ≡ c
unfolding map_move_in_direction direction_get_opposite
move-move_opposite m c up f i = ground arith
move-move_opposite m c left f i = ground arith
move-move_opposite m c down f i = ground arith
move-move_opposite m c right f i = ground arith
move-move_opposite m c (other n) f i = ground arith
