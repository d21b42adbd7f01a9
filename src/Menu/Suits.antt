-- ===== src/Menu/Suits.antt =====
-- The client that `client/main.c` runs for a choice in the main menu.
use snake_posix.Common.{
  ℕ, zero, suc, ◌^◌, ◌<◌, ◌≡◌, ◌≢◌, arith, Bool, true, false, if_intro, ==→≢, Option, none, some,
  List, [],
}
use snake_posix.Common.{Text, length}
use snake_posix.Termbox.{Termbox}
use snake_posix.Terminal.{
  Libc, Event, Asked, answered, ◌>>-◌, terminal_show_error, ReadResult, read_cancelled, read_empty,
  read_invalid, read_success, terminal_read_port, terminal_read_string, terminal_read_hostname,
  terminal_read, if_some,
}
use snake_posix.Settings.{GameSettings, setting_no_port}
use snake_posix.Menu.{
  host_menu_public, host_menu_private, MainMenuResult, main_menu_exit, main_menu_private,
  main_menu_host, main_menu_join_local, main_menu_join_remote, no_access,
}
use snake_posix.Menu.Host.{host_menu}
use snake_posix.Menu.Join.{
  connect_menu_local, connect_menu_remote, ask_remote_port, joinable, remote,
}
use snake_posix.Menu.Allowed.{Allowed, host_menu-Allowed}
use snake_posix.Menu.Ports.{Named, IfAny, non_empty-Named, retry_port-PortFits}
use snake_posix.Menu.Play.{
  Joined, run_shm_client, run_socket_client, hosted, local_game, remote_game, launch_game,
  chosen_game,
}
use snake_posix.Terminal.Typed.{
  Answers, Answers->>-, PortFits, terminal_read-Typed, terminal_show_error-fewer,
  terminal_read_string-fewer, terminal_read_port-PortFits,
}

-- A room has a name. A port fits 16 bits, and that of a game that is hosted is one.
abbrev pub Suits : MainMenuResult → Joined → Type 0
Suits choice (run_shm_client name) = name ≢ []
Suits main_menu_join_remote (run_socket_client hostname port) = (hostname ≢ []) × (port < 2 ^ 16)
Suits choice (run_socket_client hostname port) = (port ≢ setting_no_port) × (port < 2 ^ 16)

hosted-Suits :
    (settings : GameSettings)
    → Allowed settings
    → Suits main_menu_private (hosted settings) × Suits main_menu_host (hosted settings)
hosted-Suits settings allowed = go settings.room_name allowed.access allowed.named
  where
    go :
        (name : Option Text)
        → no_access name settings.port ≡ false
        → Named name
        → Suits main_menu_private (hosted (record settings { room_name = name }))
          × Suits main_menu_host (hosted (record settings { room_name = name }))
    go none access named =
        let ne = ==→≢ settings.port setting_no_port access in
        ((ne, allowed.port_fits), (ne, allowed.port_fits))
    go (some name) access named = (named, named)

joinable-Named : (tb : Termbox) (libc : Libc) (r : ReadResult Text) → Named (joinable tb libc r)
joinable-Named tb libc read_cancelled = tt
joinable-Named tb libc read_empty = tt
joinable-Named tb libc read_invalid = tt
joinable-Named tb libc (read_success text) = non_empty-Named text

local_game-Suits :
    (name : Option Text) → Named name → IfAny (Suits main_menu_join_local) (local_game name)
local_game-Suits none h = tt
local_game-Suits (some name) h = h

-- The address of a game to join.
abbrev Address : Option (Text × ℕ) → Type 0
Address none = Unit
Address (some (hostname, port)) = (hostname ≢ []) × (port < 2 ^ 16)

remote_game-Suits :
    (o : Option (Text × ℕ)) → Address o → IfAny (Suits main_menu_join_remote) (remote_game o)
remote_game-Suits none h = tt
remote_game-Suits (some (hostname, port)) h = h

module _ (tb : Termbox) (libc : Libc) where
  remote-Address :
      (hostname : Text) (r : ReadResult ℕ)
      → hostname ≢ []
      → PortFits r
      → Address (remote tb libc hostname r)
  remote-Address hostname read_cancelled ne h = tt
  remote-Address hostname read_empty ne h = tt
  remote-Address hostname read_invalid ne h = tt
  remote-Address hostname (read_success port) ne h = (ne, h)

  ask_remote_port-PortFits :
      (fuel : ℕ) (hostname : Text) (events : List Event) (screen : tb.Screen)
      → length events < fuel
      → Answers
          (length events)
          (ask_remote_port tb libc fuel hostname events screen)
          (λ r left_. PortFits r)
  unfolding ask_remote_port
  ask_remote_port-PortFits zero hostname events screen enough = absurd (omega arith)
  ask_remote_port-PortFits (suc fuel) hostname events screen enough =
      Answers->>- (length events) (terminal_read_port tb libc _ events _) _ _ _
        (terminal_read_port-PortFits tb libc _ events _)
        (λ result left_ shown (fits, fewer).
          retry_port-PortFits tb libc (ask_remote_port tb libc fuel hostname) result left_ shown
            fits (λ l s fewer'. ask_remote_port-PortFits fuel hostname l s (omega arith)))

  terminal_read_hostname-ends :
      (coordinates : _) (events : List Event) (screen : tb.Screen)
      → Answers
          (length events)
          (terminal_read_hostname tb coordinates events screen)
          (λ r left_. Unit)
  unfolding terminal_read_hostname
  terminal_read_hostname-ends coordinates events screen =
      Answers->>- (length events) (terminal_read tb coordinates true events screen) _ _ _
        (terminal_read-Typed tb coordinates true events screen)
        (λ text left_ shown h. (tt, omega arith))

  after_hostname :
      (o : Option Text) (events : List Event) (screen : tb.Screen)
      → Named o
      → Answers
          (length events)
          (if_some o
            (λ hostname left_ shown.
              ask_remote_port tb libc (suc (length left_)) hostname left_ shown
              >>- (λ port. answered (remote tb libc hostname port)))
            events
            screen)
          (λ o left_. Address o)
  after_hostname none events screen named = (tt, omega arith)
  after_hostname (some hostname) events screen named =
      Answers->>- (length events)
        (ask_remote_port tb libc (suc (length events)) hostname events screen) _ _ _
        (ask_remote_port-PortFits (suc (length events)) hostname events screen (omega arith))
        (λ port l s fits. (remote-Address hostname port named fits, omega arith))

  connect_menu_remote-Address :
      (events : List Event) (screen : tb.Screen)
      → Answers (length events) (connect_menu_remote tb libc events screen) (λ o left_. Address o)
  unfolding connect_menu_remote
  connect_menu_remote-Address events screen =
      Answers->>- (length events) (terminal_read_hostname tb _ events _) _ _ _
        (terminal_read_hostname-ends _ events _)
        (λ result left_ shown h.
          after_hostname (joinable tb libc result) left_ shown (joinable-Named tb libc result))

  connect_menu_local-Named :
      (events : List Event) (screen : tb.Screen)
      → Answers (length events) (connect_menu_local tb libc events screen) (λ o left_. Named o)
  unfolding connect_menu_local
  connect_menu_local-Named events screen =
      Answers->>- (length events) (terminal_read_string tb _ events _) _ _ _
        (terminal_read_string-fewer tb libc _ events _)
        (λ result left_ shown fewer. (joinable-Named tb libc result, omega arith))

  module _ (launch : GameSettings → Bool) (ids : ℕ × ℕ) where
    launch_game-Suits :
        (P : Joined → Type 0) (settings : Option GameSettings) (events : List Event)
        (screen : tb.Screen)
        → IfAny Allowed settings
        → ((s : GameSettings) → Allowed s → P (hosted s))
        → Answers
            (length events)
            (launch_game tb libc launch ids settings events screen)
            (λ game left_. IfAny P game)
    unfolding launch_game
    launch_game-Suits P none events screen allowed h = (tt, omega arith)
    launch_game-Suits P (some settings) events screen allowed h =
        if_intro
          (λ (m : Asked tb (Option Joined)). Answers (length events) m (λ game left_. IfAny P game))
          (launch settings) (answered (some (hosted settings)) events screen) _
          (λ e. (h settings allowed, omega arith))
          (λ e.
            Answers->>- (length events) (terminal_show_error tb _ events screen) _ _ _
              (terminal_show_error-fewer tb _ events screen)
              (λ pressed left_ shown fewer. (tt, omega arith)))

    -- Whatever is chosen and typed, the dialogues do not run out of the fuel that the model gives
    -- them, and write past the end of a buffer only if there are at least 256 events. If a client
    -- is run, the room that it joins has a name, or its port fits 16 bits, where the host of a
    -- game that is joined has a name, and the port of one that is hosted is not the number for no
    -- port.
    pub chosen_game-Suits :
        (choice : MainMenuResult) (events : List Event) (screen : tb.Screen)
        → Answers
            (length events)
            (chosen_game tb libc launch ids choice events screen)
            (λ game left_. IfAny (Suits choice) game)
    unfolding chosen_game
    chosen_game-Suits main_menu_exit events screen = (tt, omega arith)
    chosen_game-Suits main_menu_private events screen =
        Answers->>- (length events) (host_menu tb libc host_menu_private ids events screen) _ _ _
          (host_menu-Allowed tb libc host_menu_private ids events screen)
          (λ settings left_ shown allowed.
            launch_game-Suits (Suits main_menu_private) settings left_ shown allowed
              (λ s h. (hosted-Suits s h).0))
    chosen_game-Suits main_menu_host events screen =
        Answers->>- (length events) (host_menu tb libc host_menu_public ids events screen) _ _ _
          (host_menu-Allowed tb libc host_menu_public ids events screen)
          (λ settings left_ shown allowed.
            launch_game-Suits (Suits main_menu_host) settings left_ shown allowed
              (λ s h. (hosted-Suits s h).1))
    chosen_game-Suits main_menu_join_local events screen =
        Answers->>- (length events) (connect_menu_local tb libc events screen) _ _ _
          (connect_menu_local-Named events screen)
          (λ name left_ shown named. (local_game-Suits name named, omega arith))
    chosen_game-Suits main_menu_join_remote events screen =
        Answers->>- (length events) (connect_menu_remote tb libc events screen) _ _ _
          (connect_menu_remote-Address events screen)
          (λ address left_ shown h. (remote_game-Suits address h, omega arith))
