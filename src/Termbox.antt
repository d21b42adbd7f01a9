-- ===== src/Termbox.antt =====
-- The calls that the client makes of `libtermbox2/termbox2.h`, which is another project's, as a record
-- of operations. A coordinate is cast to `int` with no change, as the library has no screen with
-- 2 ^ 31 columns or rows.
use snake_posix.Common.{ℕ}
use snake_posix.Common.{Text}

-- The colours of `termbox2`, `color_default` being its 0.
pub data Color : Type 0 where
  color_default color_red color_green color_yellow color_blue color_magenta color_cyan color_white :
      Color

pub record Cell : Type 0 where
  pub character : ℕ
  pub foreground : Color
  pub background : Color

-- The operations of `termbox2` on its back buffer, which `tb_present` shows. A place is a column and
-- a row.
pub record Termbox : Type 1 where
  pub Screen : Type 0
  pub tb_clear : Screen → Screen
  pub tb_present : Screen → Screen
  pub tb_set_cell : Screen → ℕ → ℕ → Cell → Screen
  pub tb_print : Screen → ℕ → ℕ → Color → Color → Text → Screen
  pub tb_set_cursor : Screen → ℕ → ℕ → Screen
  pub tb_hide_cursor : Screen → Screen
  pub tb_width : Screen → ℕ
