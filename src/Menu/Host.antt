-- ===== src/Menu/Host.antt =====
-- `client/menu/host_menu.c`: the settings of a game to host.
use snake_posix.Common.{ℕ, zero, suc, ◌+◌, ◌==◌, if◌then◌else◌, Option, none, some, List, ◌++◌}
use snake_posix.Common.{Text, codes, length}
use snake_posix.Map.{min_map_width, min_map_height, max_map_width, max_map_height}
use snake_posix.Termbox.{Termbox}
use snake_posix.Terminal.{
  if_some, retry_port, Libc, Event, ReadResult, read_cancelled, read_empty, read_invalid,
  read_success, Asked, answered, out_of_fuel, ◌>>-◌, terminal_read_string, terminal_read_coordinate,
  terminal_read_port, terminal_show_error,
}
use snake_posix.Settings.{GameSettings, setting_no_port, setting_no_parent}
use snake_posix.Menu.{
  host_menu_clamp_coordinate, HostMenuOptions, host_menu_public, host_menu_private, non_empty,
  no_access, room_name_offset, port_offset, plain,
}

module _ (tb : Termbox) (libc : Libc) where
  -- `PRINT_ROOM_NAME` and `PRINT_PORT`
  unfoldable pub print_room_name : Option Text → tb.Screen → tb.Screen
  print_room_name none screen = screen
  print_room_name (some name) screen = plain tb 0 0 (codes "Room name: " ++ name) screen

  unfoldable pub print_port : Option Text → ℕ → tb.Screen → tb.Screen
  print_port room_name port screen =
      if port == setting_no_port
      then screen
      else plain tb 0 (room_name_offset room_name) (codes "Port: " ++ libc.print_number port) screen

  -- The room's name of the settings; the outer `none` is a menu that is left.
  abbrev pub named : ReadResult Text → Option (Option Text)
  named (read_success text) = some (non_empty text)
  named read_cancelled = none
  named read_empty = some none
  named read_invalid = some none

  unfoldable pub ask_room_name :
      HostMenuOptions → ℕ × ℕ → List Event → tb.Screen → Asked tb (Option (Option Text))
  ask_room_name host_menu_public ids events screen =
      terminal_read_string tb (record { row = 0; column = 49 }) events
        (tb.tb_present (
          plain tb 0 0 (codes "Enter room name (blank to disable local access): ")
            (tb.tb_clear screen)))
      >>- (λ result. answered (named result))
  ask_room_name host_menu_private ids events screen =
      answered
        (some (
          non_empty (
            codes "$--private_"
            ++ libc.print_number ids.0
            ++ codes "_"
            ++ libc.print_number ids.1)))
        events screen

  -- The loop that asks for a port, for at most `fuel` times.
  unfoldable pub ask_port : ℕ → Option Text → List Event → tb.Screen → Asked tb (ReadResult ℕ)
  ask_port zero room_name events screen = out_of_fuel
  ask_port (suc fuel) room_name events screen =
      terminal_read_port tb libc (record { row = room_name_offset room_name; column = 45 }) events
        (tb.tb_present (
          plain tb 0 (room_name_offset room_name)
            (codes "Enter port (blank to disable remote access): ")
            (print_room_name room_name (tb.tb_clear screen))))
      >>- retry_port tb (ask_port fuel room_name)

  -- The port of the settings; `none` is a menu that is left.
  abbrev pub port_setting : ReadResult ℕ → Option ℕ
  port_setting read_cancelled = none
  port_setting read_empty = some setting_no_port
  port_setting read_invalid = none
  port_setting (read_success port) = some port

  unfoldable pub ask_port_setting :
      HostMenuOptions → Option Text → List Event → tb.Screen → Asked tb (Option ℕ)
  ask_port_setting host_menu_public room_name events screen =
      ask_port (suc (length events)) room_name events screen
      >>- (λ result. answered (port_setting result))
  ask_port_setting host_menu_private room_name events screen =
      answered (some setting_no_port) events screen

  abbrev pub clamped : (min max : ℕ) → ReadResult ℕ → Option ℕ
  clamped min max (read_success value) = some (host_menu_clamp_coordinate min value max)
  clamped min max _ = none

  -- A size that the user types, within its limits.
  unfoldable pub ask_size :
      Option Text
      → ℕ
      → Text
      → ℕ
      → (tb.Screen → tb.Screen)
      → (min max : ℕ) → List Event
      → tb.Screen
      → Asked tb (Option ℕ)
  ask_size room_name port prompt row shows min max events screen =
      terminal_read_coordinate tb libc (record { row = row; column = length prompt }) events
        (tb.tb_present (
          plain tb 0 row prompt
            (shows (print_port room_name port (print_room_name room_name (tb.tb_clear screen))))))
      >>- (λ result. answered (clamped min max result))

  abbrev size_prompt : Text → ℕ → ℕ → Text
  size_prompt name min max =
      name ++ libc.print_number min ++ codes ", max = " ++ libc.print_number max ++ codes "): "

  abbrev pub settings_for : Option Text → ℕ → Option Text → ℕ → ℕ → GameSettings
  settings_for room_name port map_path width height = record {
    room_name = room_name;
    map_path = map_path;
    width = width;
    height = height;
    parent = setting_no_parent;
    port = port;
  }

  -- The dialogue for the two sizes.
  unfoldable pub ask_sizes :
      Option Text → ℕ → List Event → tb.Screen → Asked tb (Option GameSettings)
  ask_sizes room_name port events screen =
      let row = room_name_offset room_name + port_offset port in
      let width_prompt = size_prompt (codes "Map width (min = ") min_map_width max_map_width in
      let height_prompt = size_prompt (codes "Map height (min = ") min_map_height max_map_height in
      ask_size room_name port width_prompt row (λ s. s) min_map_width max_map_width events screen
      >>- (λ width_result. if_some width_result (λ width left_ shown.
          ask_size room_name port height_prompt (1 + row)
            (plain tb 0 row (codes "Width: " ++ libc.print_number width)) min_map_height
            max_map_height left_ shown
          >>- (λ height_result.
              if_some height_result
                (λ height. answered (some (settings_for room_name port none width height))))))

  -- The board of the settings: from a file, or of a size that is asked for.
  abbrev pub board :
      Option Text → ℕ → Option Text → List Event → tb.Screen → Asked tb (Option GameSettings)
  board room_name port none events screen = ask_sizes room_name port events screen
  board room_name port (some path) events screen =
      answered (some (settings_for room_name port (some path) 0 0)) events screen

  -- The dialogue for the map.
  unfoldable pub ask_map : Option Text → ℕ → List Event → tb.Screen → Asked tb (Option GameSettings)
  ask_map room_name port events screen =
      let row = room_name_offset room_name + port_offset port in
      terminal_read_string tb (record { row = row; column = 41 }) events
        (tb.tb_present (
          plain tb 0 row (codes "Enter path to map (empty for blank map): ")
            (print_port room_name port (print_room_name room_name (tb.tb_clear screen)))))
      >>- (λ result. if_some (named result) (board room_name port))

  -- The rest of the dialogue, if there is an access method.
  unfoldable pub ask_map_if_accessible :
      Option Text → ℕ → List Event → tb.Screen → Asked tb (Option GameSettings)
  ask_map_if_accessible room_name port events screen =
      if no_access room_name port
      then terminal_show_error tb (codes "At least one access method has to be defined!") events
          screen
        >>- (λ pressed. answered none)
      else ask_map room_name port events screen

  -- `ids` are the two numbers that `rng_uniform_dist` draws for a private game. The parent of the
  -- settings is not set here; its value is that of no parent.
  unfoldable pub host_menu :
      HostMenuOptions → ℕ × ℕ → List Event → tb.Screen → Asked tb (Option GameSettings)
  host_menu options ids events screen = ask_room_name options ids events screen >>- (λ room_result.
      if_some room_result (λ room_name left_ shown.
        ask_port_setting options room_name left_ shown
        >>- (λ port_result. if_some port_result (ask_map_if_accessible room_name))))
