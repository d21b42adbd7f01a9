-- ===== src/Menu/Play.antt =====
-- `client/main.c`: from the choice in the main menu to the client that is run. What the launch of a
-- server gives, and what a game does with the events and the screen, are parameters.
use snake_posix.Common.{ℕ, Bool, if◌then◌else◌, Option, none, some, List}
use snake_posix.Common.{Text, codes}
use snake_posix.Termbox.{Termbox}
use snake_posix.Terminal.{Libc, Event, Asked, answered, ◌>>-◌, terminal_show_error}
use snake_posix.Settings.{GameSettings}
use snake_posix.Menu.{
  host_menu_public, host_menu_private, MainMenuResult, main_menu_exit, main_menu_private,
  main_menu_host, main_menu_join_local, main_menu_join_remote,
}
use snake_posix.Menu.Host.{host_menu}
use snake_posix.Menu.Join.{connect_menu_local, connect_menu_remote}

-- The client that is run: `shm_client_run` for a room, or `socket_client_run` for a host and a port.
pub data Joined : Type 0 where
  run_shm_client : Text → Joined
  run_socket_client : Text → ℕ → Joined

-- The client for a game that is hosted.
abbrev pub hosted : GameSettings → Joined
hosted settings = elim settings.room_name [
  | some name ↦ run_shm_client name
  | none ↦ run_socket_client (codes "localhost") settings.port
]

-- The client for a room, and for a host, if there is one.
abbrev pub local_game : Option Text → Option Joined
local_game none = none
local_game (some name) = some (run_shm_client name)

abbrev pub remote_game : Option (Text × ℕ) → Option Joined
remote_game none = none
remote_game (some (hostname, port)) = some (run_socket_client hostname port)

module _ (tb : Termbox) (libc : Libc) (launch : GameSettings → Bool) (ids : ℕ × ℕ) where
  -- The server is launched for the settings.
  unfoldable pub launch_game :
      Option GameSettings → List Event → tb.Screen → Asked tb (Option Joined)
  launch_game none events screen = answered none events screen
  launch_game (some settings) events screen =
      if launch settings
      then answered (some (hosted settings)) events screen
      else terminal_show_error tb (codes "Failed to launch server process!") events screen
        >>- (λ pressed. answered none)

  -- What follows a choice, up to the client that is run, if there is one.
  unfoldable pub chosen_game : MainMenuResult → List Event → tb.Screen → Asked tb (Option Joined)
  chosen_game main_menu_exit events screen = answered none events screen
  chosen_game main_menu_private events screen =
      host_menu tb libc host_menu_private ids events screen >>- launch_game
  chosen_game main_menu_host events screen =
      host_menu tb libc host_menu_public ids events screen >>- launch_game
  chosen_game main_menu_join_local events screen =
      connect_menu_local tb libc events screen >>- (λ name. answered (local_game name))
  chosen_game main_menu_join_remote events screen =
      connect_menu_remote tb libc events screen >>- (λ address. answered (remote_game address))
