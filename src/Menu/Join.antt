-- ===== src/Menu/Join.antt =====
-- `client/menu/main_menu.c` and `client/menu/connect_menu.c`: the choice of a menu, and which game to
-- join.
use snake_posix.Common.{ℕ, zero, suc, ◌==◌, if◌then◌else◌, Option, none, some, List, [], ◌∷◌, ◌++◌}
use snake_posix.Common.{Text, codes, length}
use snake_posix.Termbox.{Termbox, color_default, color_green, color_red}
use snake_posix.Terminal.{
  if_some, retry_port, Libc, Event, event_key, event_other, key_escape, ReadResult, read_success,
  Asked, answered, waiting, out_of_fuel, ◌>>-◌, terminal_read_string, terminal_read_hostname,
  terminal_read_port,
}
use snake_posix.Menu.{
  MainMenuResult, main_menu_exit, main_menu_private, main_menu_host, main_menu_join_local,
  main_menu_join_remote, non_empty, plain,
}

module _ (tb : Termbox) (libc : Libc) where
  -- The loop of `main_menu` over the events.
  unfoldable pub choose : List Event → tb.Screen → Asked tb MainMenuResult
  choose [] screen = waiting
  choose (event_other ∷ events) screen = choose events screen
  choose (event_key key_escape ch ∷ events) screen = answered main_menu_exit events screen
  choose (event_key _ ch ∷ events) screen =
      if ch == b'5'
      then answered main_menu_exit events screen
      else (if ch == b'1'
          then answered main_menu_private events screen
          else (if ch == b'2'
              then answered main_menu_host events screen
              else (if ch == b'3'
                  then answered main_menu_join_local events screen
                  else (if ch == b'4'
                      then answered main_menu_join_remote events screen
                      else choose events screen))))

  -- `logo` is the text of several lines at the top.
  unfoldable pub main_menu : Text → List Event → tb.Screen → Asked tb MainMenuResult
  main_menu logo events screen =
      let titled = tb.tb_print (tb.tb_clear screen) 0 2 color_green color_default logo in
      let signed = tb.tb_print titled 17 9 color_red color_default (codes "Erik Zemcik 5ZYI33") in
      choose events (
        tb.tb_present (
          plain tb 0 16 (codes "5. Exit") (
            plain tb 0 15 (codes "4. Join remote game") (
              plain tb 0 14 (codes "3. Join local game") (
                plain tb 0 13 (codes "2. Host public game")
                  (plain tb 0 12 (codes "1. Play private game") signed))))))

  -- The name of the room, if it is to be joined.
  abbrev pub joinable : ReadResult Text → Option Text
  joinable (read_success text) = non_empty text
  joinable _ = none

  unfoldable pub connect_menu_local : List Event → tb.Screen → Asked tb (Option Text)
  connect_menu_local events screen =
      terminal_read_string tb (record { row = 0; column = 25 }) events
        (tb.tb_present (plain tb 0 0 (codes "Enter room name to join: ") (tb.tb_clear screen)))
      >>- (λ result. answered (joinable result))

  -- The loop that asks for a port, for at most `fuel` times.
  unfoldable pub ask_remote_port : ℕ → Text → List Event → tb.Screen → Asked tb (ReadResult ℕ)
  ask_remote_port zero hostname events screen = out_of_fuel
  ask_remote_port (suc fuel) hostname events screen =
      terminal_read_port tb libc (record { row = 1; column = 12 }) events
        (tb.tb_present (
          plain tb 0 1 (codes "Enter port: ")
            (plain tb 0 0 (codes "Hostname: " ++ hostname) (tb.tb_clear screen))))
      >>- retry_port tb (ask_remote_port fuel hostname)

  -- The host and the port, if the game is to be joined.
  abbrev pub remote : Text → ReadResult ℕ → Option (Text × ℕ)
  remote hostname (read_success port) = some (hostname, port)
  remote hostname _ = none

  unfoldable pub connect_menu_remote : List Event → tb.Screen → Asked tb (Option (Text × ℕ))
  connect_menu_remote events screen =
      terminal_read_hostname tb (record { row = 0; column = 16 }) events
        (tb.tb_present (plain tb 0 0 (codes "Enter hostname: ") (tb.tb_clear screen)))
      >>- (λ result. if_some (joinable result) (λ hostname left_ shown.
          ask_remote_port (suc (length left_)) hostname left_ shown
          >>- (λ port. answered (remote hostname port))))
