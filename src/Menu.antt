-- ===== src/Menu.antt =====
-- `client/menu/{host_menu,connect_menu,main_menu}.{h,c}`: the dialogues in which the user says which
-- game to host or to join. The memory that they allocate is not followed.
pub mod Host
pub mod Join
pub mod Allowed
pub mod Play
pub mod Ports
pub mod Suits
use package.snake_posix.Common.{
  ℕ, zero, suc, ◌+◌, ◌-◌, ◌*◌, ◌/◌, ◌%◌, ◌^◌, ◌≤◌, ◌<◌, ◌≡◌, refl, sym, ap, ◌∙◌, subst, ◌≢◌, ◌↔◌,
  ◌⊎◌, inl, inr, arith, Bool, true, false, not, ◌&&◌, ◌||◌, ◌==◌, ltb, leb, if◌then◌else◌, if_intro,
  Bool-cases, ==-refl, ==→≡, ==→≢, Option, none, some, Option-cases, List, [], ◌∷◌, ◌++◌,
}
use package.snake_posix.Common.{Text, codes, length}
use package.snake_posix.Geometry.{Coordinates}
use package.snake_posix.Map.{min_map_width, min_map_height, max_map_width, max_map_height}
use package.snake_posix.Termbox.{Termbox, Color, color_default, color_green, color_red}
use package.snake_posix.Terminal.{
  Libc, Event, event_key, event_other, key_escape, key_enter, key_backspace, key_backspace2,
  key_other, ReadResult, read_cancelled, read_empty, read_invalid, read_success, Asked, answered,
  waiting, out_of_fuel, ◌>>-◌, terminal_read_string, terminal_read_hostname,
  terminal_read_coordinate, terminal_read_port, terminal_show_error, terminal_show_info,
}
use package.snake_posix.Settings.{GameSettings, setting_no_port, setting_no_parent}

unfoldable pub host_menu_clamp_coordinate : (min val max : ℕ) → ℕ
host_menu_clamp_coordinate min val max =
    if ltb val min then min else (if ltb max val then max else val)

-- `host_menu_options_t`
pub data HostMenuOptions : Type 0 where
  host_menu_public host_menu_private : HostMenuOptions

-- `main_menu_result_t`
pub data MainMenuResult : Type 0 where
  main_menu_exit main_menu_private main_menu_host main_menu_join_local main_menu_join_remote :
      MainMenuResult

-- A string that is `NULL` where it is empty.
abbrev pub non_empty : Text → Option Text
non_empty [] = none
non_empty (c ∷ text) = some (c ∷ text)

-- No access method is defined.
abbrev pub no_access : Option Text → ℕ → Bool
no_access none port = port == setting_no_port
no_access (some name) port = false

-- `ROOM_NAME_OFFSET` and `PORT_OFFSET`
abbrev pub room_name_offset : Option Text → ℕ
room_name_offset none = 0
room_name_offset (some name) = 1

abbrev pub port_offset : ℕ → ℕ
port_offset port = if port == setting_no_port then 0 else 1

module _ (tb : Termbox) where
  -- `tb_print` with no attributes.
  abbrev pub plain : ℕ → ℕ → Text → tb.Screen → tb.Screen
  plain x y text screen = tb.tb_print screen x y color_default color_default text
