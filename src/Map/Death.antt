-- ===== src/Map/Death.antt =====
-- `map_mark_player_as_dead`: the flood over the tiles of a dead player. The fuel is one more than
-- the cells of the board, since each call below the first has turned one more tile of the player.
pub mod Region
pub mod Flood
use snake_posix.Common.{
  ℕ, zero, suc, ◌+◌, ◌-◌, ◌*◌, ◌/◌, ◌%◌, ◌^◌, ◌≤◌, ◌<◌, ◌≡◌, refl, sym, ap, ◌∙◌, subst, ◌≢◌, ◌↔◌,
  ◌⊎◌, inl, inr, arith, Bool, true, false, not, ◌&&◌, ◌||◌, ◌==◌, ltb, leb, if◌then◌else◌,
  Bool-cases, ==-refl, ==→≡, ==→≢, Option, none, some, Option-cases, List, [], ◌∷◌, ◌++◌,
}
use snake_posix.Common.Outcome.{Outcome, ok, stuck, ◌>>=◌}
use snake_posix.Geometry.{Coordinates, up, left, down, right}
use snake_posix.Map.{Map, tile_player, is_type, map_set_tile_dead, map_move_in_direction}
use snake_posix.Map.Neighbors.{tile_at}

mark_fuel : ℕ → Map → ℕ → Coordinates → Outcome Map
mark_fuel zero self player start = stuck
mark_fuel (suc fuel) self player start =
    let tile = tile_at self start in
    let spread = (do
      let self = map_set_tile_dead self start
      self ← mark_fuel fuel self player (map_move_in_direction self start up)
      self ← mark_fuel fuel self player (map_move_in_direction self start down)
      self ← mark_fuel fuel self player (map_move_in_direction self start left)
      mark_fuel fuel self player (map_move_in_direction self start right)) in
    if not (is_type tile.type tile_player) || not (tile.player == player) then ok self else spread

unfoldable pub map_mark_player_as_dead : Map → ℕ → Coordinates → Outcome Map
unfolding mark_fuel map_set_tile_dead map_move_in_direction
map_mark_player_as_dead self player start =
    mark_fuel (self.height * self.width + 1) self player start
