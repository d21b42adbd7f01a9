-- ===== src/Renderer.antt =====
-- `client/renderer/renderer.{h,c}` and `client/renderer/renderer_command.h`: the thread that draws
-- the board.
pub mod Screen
pub mod Commands
pub mod Round
pub mod Display
pub mod Settles
pub mod Idle
use package.snake_posix.Common.{
  ℕ, zero, suc, ◌+◌, ◌-◌, ◌*◌, ◌/◌, ◌%◌, ◌^◌, ◌≤◌, ◌<◌, ◌≡◌, refl, sym, ap, ◌∙◌, subst, ◌≢◌, ◌↔◌,
  ◌⊎◌, inl, inr, arith, Bool, true, false, not, ◌&&◌, ◌||◌, ◌==◌, ltb, leb, if◌then◌else◌, if_intro,
  Bool-cases, ==-refl, ==→≡, ==→≢, Option, none, some, Option-cases, List, [], ◌∷◌, ◌++◌,
}
use package.snake_posix.Common.{Text, codes, length, get_or, add32}
use package.snake_posix.Termbox.{
  Termbox, Cell, Color, color_default, color_red, color_green, color_yellow, color_blue,
  color_magenta, color_cyan, color_white,
}
use package.snake_posix.Common.Loops.{for_range}
use package.snake_posix.Common.Outcome.{Outcome, ok, undefined, stuck, ◌>>=◌}
use package.snake_posix.Map.{
  Map, MapTile, MapTileType, tile_empty, tile_player, tile_fruit, tile_wall, tile_dead, is_type,
  map_get_tile_state,
}
use package.snake_posix.Player.{PlayerStatus, player_playing, player_paused, player_dead, is_status}
use package.snake_posix.Queue.{Queue, queue_push, queue_pop, queue_clear}

unfoldable pub foreground_colors : List Color
foreground_colors =
    color_red ∷ color_green ∷ color_yellow ∷ color_blue ∷ color_magenta ∷ color_cyan ∷ []

unfoldable pub renderer_get_tile_character : MapTileType → ℕ
renderer_get_tile_character tile_player = b'*'
renderer_get_tile_character tile_wall = b'#'
renderer_get_tile_character tile_fruit = b'O'
renderer_get_tile_character _ = b' '

-- The cell that `renderer_update_tile` makes of a tile.
unfoldable pub tile_cell : MapTile → Cell
tile_cell tile = record {
  character = renderer_get_tile_character tile.type;
  foreground =
      if is_type tile.type tile_player
      then get_or foreground_colors (tile.player % 6) color_default
      else color_default;
  background = color_default;
}

abbrev pub border_cell : Cell
border_cell = record { character = b' '; foreground = color_white; background = color_blue }

-- `renderer_command_t`, whose data is a union. A map is a pointer to a `syn_map_t`.
pub data RendererCommand : Type 0 where
  command_redraw : (map : ℕ) → PlayerStatus → RendererCommand
  command_update : (row column : ℕ) → MapTile → RendererCommand

module _ (tb : Termbox) where
  unfoldable pub renderer_update_tile : tb.Screen → ℕ → ℕ → MapTile → tb.Screen
  renderer_update_tile screen row column tile =
      tb.tb_set_cell screen (column + 1) (row + 1) (tile_cell tile)

  unfoldable pub draw_tiles : Map → tb.Screen → tb.Screen
  unfolding for_range
  draw_tiles map = for_range map.height 0 (λ i. for_range map.width 0 (λ j screen.
      renderer_update_tile screen i j (map_get_tile_state map (record { row = i; column = j }))))

  unfoldable pub draw_border : Map → tb.Screen → tb.Screen
  unfolding for_range
  draw_border map screen =
      let rows =
        for_range (add32 map.width 2) 0
          (λ i s. tb.tb_set_cell (tb.tb_set_cell s i 0 border_cell) i (map.height + 1) border_cell)
          screen in
      for_range (add32 map.height 1 - 1) 1
        (λ i s. tb.tb_set_cell (tb.tb_set_cell s 0 i border_cell) (map.width + 1) i border_cell)
        rows

  -- `PRINT_CONTROL`, with the dash of the description written out.
  unfoldable pub print_control : ℕ → Text → Text → ℕ → tb.Screen → tb.Screen
  print_control height key description index screen =
      let row = height + 5 + index in
      let dashed = tb.tb_print screen 1 row color_default color_default (codes "-") in
      let named = tb.tb_print dashed 3 row color_yellow color_default key in
      tb.tb_print named (5 + length key) row color_default color_default description

  unfoldable pub print_controls : ℕ → PlayerStatus → tb.Screen → tb.Screen
  print_controls height status screen =
      let titled =
        tb.tb_print screen 0 (height + 4) color_default color_default (codes "Controls:") in
      let dashed = tb.tb_print titled 1 (height + 5) color_default color_default (codes "-") in
      let always = print_control height (codes "ESC") (codes "- leave the game") 0 dashed in
      if is_status status player_dead
      then print_control height (codes "R") (codes "- respawn") 1 always
      else (if is_status status player_playing
          then print_control height (codes "P") (codes "- pause the game") 2 (
              print_control height (codes "arrows") (codes "- control the snake movement") 1 always)
          else (if is_status status player_paused
              then print_control height (codes "U") (codes "- unpause the game") 1 always
              else always))

  unfoldable pub renderer_redraw_screen : tb.Screen → Map → PlayerStatus → tb.Screen
  renderer_redraw_screen screen map status =
      tb.tb_present
        (print_controls map.height status (draw_border map (draw_tiles map (tb.tb_clear screen))))

  -- `renderer_t` with the screen that it draws to. Its mutex is held over each of the operations
  -- below.
  pub record Renderer : Type 0 where
    pub queue : Queue RendererCommand
    pub screen : tb.Screen

  -- The loop of `renderer_main` over the updates, for at most `fuel` of them. The data of any command
  -- is read as that of an update, which is undefined for a redraw.
  unfoldable pub update_tiles :
      ℕ
      → ℕ
      → ℕ
      → MapTile
      → Queue RendererCommand
      → tb.Screen
      → Outcome (Queue RendererCommand × tb.Screen)
  update_tiles zero row column tile queue screen = stuck
  update_tiles (suc fuel) row column tile queue screen =
      let updated = renderer_update_tile screen row column tile in
      queue_pop queue >>= (λ (next, rest). elim next [
        | none ↦ ok (rest, updated)
        | some (command_redraw map status) ↦ undefined
        | some (command_update r c t) ↦ update_tiles fuel r c t rest updated
      ])

  -- The body of the loop of `renderer_main`, where the queue is not empty. The contents of a map are
  -- read when its redraw is handled.
  unfoldable pub renderer_round : ℕ → (ℕ → Map) → Renderer → Outcome Renderer
  renderer_round fuel maps self = queue_pop self.queue >>= (λ (command, rest). elim command [
    | none ↦ undefined
    | some (command_redraw map status) ↦
        ok (record { queue = rest; screen = renderer_redraw_screen self.screen (maps map) status })
    | some (command_update r c t) ↦
        update_tiles fuel r c t rest self.screen
        >>= (λ (left, screen). ok (record { queue = left; screen = tb.tb_present screen }))
  ])

  -- The first number is the fuel of `queue_clear`, the second the address that `malloc` returns.
  unfoldable pub renderer_redraw : ℕ → ℕ → Renderer → ℕ → PlayerStatus → Outcome Renderer
  renderer_redraw fuel node self map status =
      queue_clear fuel self.queue
      >>= (λ cleared. queue_push node cleared (command_redraw map status))
      >>= (λ queue. ok (record self { queue = queue }))

  unfoldable pub renderer_update : ℕ → Renderer → ℕ → ℕ → MapTile → Outcome Renderer
  renderer_update node self row column tile =
      queue_push node self.queue (command_update row column tile)
      >>= (λ queue. ok (record self { queue = queue }))
