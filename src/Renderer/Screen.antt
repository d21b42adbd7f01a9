-- ===== src/Renderer/Screen.antt =====
-- What `client/renderer/renderer.c` draws, on a screen with the documented behaviour of `termbox2`.
use snake_posix.Common.{
  codes, ℕ, ◌+◌, ◌-◌, ◌<◌, ◌≡◌, refl, sym, ◌∙◌, inl, inr, arith, true, false, ◌&&◌, ◌==◌, ltb,
  if◌then◌else◌, if_intro, Bool-cases,
}
use snake_posix.Common.{Text, add32}
use snake_posix.Common.Loops.{for_range_inv, for_grid_lem}
use snake_posix.Map.{Map, MapTile, map_get_tile_state}
use snake_posix.Player.{PlayerStatus, player_playing, player_paused, player_dead, is_status}
use snake_posix.Termbox.{Color, Cell, Termbox}
use snake_posix.Renderer.{
  tile_cell, border_cell, renderer_update_tile, draw_tiles, draw_border, print_control,
  print_controls, renderer_redraw_screen,
}

-- The cells of the back buffer and of what is shown. A write to a place that is not on the screen
-- changes none of its cells, and a text changes no row above its own.
pub record TermboxLaws (tb : Termbox) : Type 0 where
  pub cell : tb.Screen → ℕ → ℕ → Cell
  pub shown : tb.Screen → ℕ → ℕ → Cell
  pub width : ℕ
  pub height : ℕ
  pub cell_set :
      (s : tb.Screen) (x y : ℕ) (v : Cell) (x' y' : ℕ)
      → x' < width
      → y' < height
      → cell (tb.tb_set_cell s x y v) x' y' ≡ (if x' == x && y' == y then v else cell s x' y')
  pub cell_print :
      (s : tb.Screen) (x y : ℕ) (f b : Color) (text : Text) (x' y' : ℕ)
      → y' < y
      → cell (tb.tb_print s x y f b text) x' y' ≡ cell s x' y'
  pub cell_present : (s : tb.Screen) (x y : ℕ) → cell (tb.tb_present s) x y ≡ cell s x y
  pub shown_present : (s : tb.Screen) (x y : ℕ) → shown (tb.tb_present s) x y ≡ cell s x y

module _ (tb : Termbox) (laws : TermboxLaws tb) where
  -- The cell of the board's tile in a row and a column, past the border.
  abbrev pub tile_of : tb.Screen → ℕ → ℕ → Cell
  tile_of s r c = laws.cell s (c + 1) (r + 1)

  -- The screen is large enough to have that cell.
  abbrev pub Visible : ℕ → ℕ → Type 0
  Visible r c = (c + 1 < laws.width) × (r + 1 < laws.height)

  pub renderer_update_tile-tile_of :
      (s : tb.Screen) (row column : ℕ) (t : MapTile) (r c : ℕ)
      → Visible r c
      → tile_of (renderer_update_tile tb s row column t) r c
        ≡ (if r == row && c == column then tile_cell t else tile_of s r c)
  unfolding renderer_update_tile
  renderer_update_tile-tile_of s row column t r c (v, w) =
      ground (arith, laws.cell_set s (column + 1) (row + 1) (tile_cell t) (c + 1) (r + 1) v w)

  module _ (m : Map) (r c : ℕ) (visible : Visible r c) where
    abbrev drawn : ℕ → ℕ → Cell
    drawn i j = tile_cell (m.tiles i j)

    -- The same, with the tile itself where the screen has no cell.
    abbrev tile_or : tb.Screen → ℕ → ℕ → Cell
    tile_or s i j =
        if ltb (j + 1) laws.width && ltb (i + 1) laws.height then tile_of s i j else drawn i j

    tile_or-step :
        (i j : ℕ) (s : tb.Screen) (r' c' : ℕ)
        → tile_or (renderer_update_tile tb s i j (m.tiles i j)) r' c'
          ≡ (if r' == i && c' == j then drawn i j else tile_or s r' c')
    tile_or-step i j s r' c' =
        elim (Bool-cases (ltb (c' + 1) laws.width && ltb (r' + 1) laws.height)) [
          | inl e ↦
              rw e (
                renderer_update_tile-tile_of s i j (m.tiles i j) r' c' (ground arith, ground arith))
          | inr e ↦ rw e (
              if_intro (λ v. drawn r' c' ≡ v) (r' == i && c' == j) (drawn i j) (drawn r' c')
                (λ same.
                  let row : r' ≡ i = ground arith in let column : c' ≡ j = ground arith in cc)
                (λ away. refl))
        ]

    draw_tiles-tile_of :
        (s : tb.Screen) → r < m.height → c < m.width → tile_of (draw_tiles tb m s) r c ≡ drawn r c
    unfolding draw_tiles map_get_tile_state
    draw_tiles-tile_of s lr lc =
        let grid =
          for_grid_lem tile_or (λ i j v. drawn i j)
            (λ i j u. renderer_update_tile tb u i j (m.tiles i j)) tile_or-step m.height m.width s r
            c in
        let on_board : (ltb r m.height && ltb c m.width) ≡ true = ground arith in
        let on_screen : (ltb (c + 1) laws.width && ltb (r + 1) laws.height) ≡ true =
          let (v, w) = visible in ground arith in
        rw (on_board, on_screen) at grid

    away_from :
        (s : tb.Screen) (x y : ℕ) (v : Cell)
        → (c + 1 == x && r + 1 == y) ≡ false
        → tile_of (tb.tb_set_cell s x y v) r c ≡ tile_of s r c
    away_from s x y v e = laws.cell_set s x y v (c + 1) (r + 1) visible.0 visible.1 ∙ (rw e refl)

    -- The border is around the tiles.
    draw_border-tile_of :
        (s : tb.Screen)
        → r < m.height
        → c < m.width
        → tile_of (draw_border tb m s) r c ≡ tile_of s r c
    unfolding draw_border
    draw_border-tile_of s lr lc =
        for_range_inv (λ i u. tile_of u r c ≡ tile_of s r c) _ (add32 m.height 1 - 1) 1
          (1 + (add32 m.height 1 - 1)) _ refl
          (λ i u lt e.
            away_from _ (m.width + 1) i border_cell (ground arith)
            ∙ away_from u 0 i border_cell (ground arith)
            ∙ e)
          (for_range_inv (λ i u. tile_of u r c ≡ tile_of s r c) _ (add32 m.width 2) 0
            (add32 m.width 2) s (omega arith)
            (λ i u lt e.
              away_from _ i (m.height + 1) border_cell (ground arith)
              ∙ away_from u i 0 border_cell (ground arith)
              ∙ e)
            refl)

    print_control-tile_of :
        (key text : Text) (index : ℕ) (s : tb.Screen)
        → r < m.height
        → tile_of (print_control tb m.height key text index s) r c ≡ tile_of s r c
    unfolding print_control
    print_control-tile_of key text index s lr =
        laws.cell_print _ _ _ _ _ text (c + 1) (r + 1) (omega arith)
        ∙ laws.cell_print _ _ _ _ _ key (c + 1) (r + 1) (omega arith)
        ∙ laws.cell_print _ _ _ _ _ (codes "-") (c + 1) (r + 1) (omega arith)

    print_controls-tile_of :
        (status : PlayerStatus) (s : tb.Screen)
        → r < m.height
        → tile_of (print_controls tb m.height status s) r c ≡ tile_of s r c
    unfolding print_controls
    print_controls-tile_of status s lr =
        let always =
          print_control-tile_of (codes "ESC") (codes "- leave the game") 0 _ lr
          ∙ laws.cell_print _ _ _ _ _ (codes "-") (c + 1) (r + 1) (omega arith)
          ∙ laws.cell_print _ _ _ _ _ (codes "Controls:") (c + 1) (r + 1) (omega arith) in
        if_intro (λ u. tile_of u r c ≡ tile_of s r c) (is_status status player_dead) _ _
          (λ e. print_control-tile_of (codes "R") (codes "- respawn") 1 _ lr ∙ always)
          (λ e.
            if_intro (λ u. tile_of u r c ≡ tile_of s r c) (is_status status player_playing) _ _
              (λ e'.
                print_control-tile_of (codes "P") (codes "- pause the game") 2 _ lr
                ∙ print_control-tile_of (codes "arrows") (codes "- control the snake movement") 1 _
                    lr
                ∙ always)
              (λ e'.
                if_intro (λ u. tile_of u r c ≡ tile_of s r c) (is_status status player_paused) _ _
                  (λ e''.
                    print_control-tile_of (codes "U") (codes "- unpause the game") 1 _ lr ∙ always)
                  (λ e''. always)))

    -- After a redraw, every tile of the board that the screen has room for is on it.
    pub renderer_redraw_screen-tile_of :
        (s : tb.Screen) (status : PlayerStatus)
        → r < m.height
        → c < m.width
        → tile_of (renderer_redraw_screen tb s m status) r c ≡ drawn r c
    unfolding renderer_redraw_screen
    renderer_redraw_screen-tile_of s status lr lc =
        laws.cell_present _ (c + 1) (r + 1)
        ∙ print_controls-tile_of status _ lr
        ∙ draw_border-tile_of _ lr lc
        ∙ draw_tiles-tile_of (tb.tb_clear s) lr lc

  -- A redraw is shown.
  pub renderer_redraw_screen-shown :
      (s : tb.Screen) (m : Map) (status : PlayerStatus) (x y : ℕ)
      → laws.shown (renderer_redraw_screen tb s m status) x y
        ≡ laws.cell (renderer_redraw_screen tb s m status) x y
  unfolding renderer_redraw_screen
  renderer_redraw_screen-shown s m status x y =
      laws.shown_present _ x y ∙ sym (laws.cell_present _ x y)
