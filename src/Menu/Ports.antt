-- ===== src/Menu/Ports.antt =====
-- The rooms' names and the ports that the dialogues of `client/menu` ask for.
use snake_posix.Common.{ℕ, zero, suc, ◌^◌, ◌<◌, ◌≢◌, arith, Option, none, some, List, [], ◌∷◌}
use snake_posix.Common.{Text, length}
use snake_posix.Termbox.{Termbox}
use snake_posix.Terminal.{
  Libc, Event, ReadResult, read_cancelled, read_empty, read_invalid, read_success, Asked,
  retry_port, terminal_read_string, terminal_read_port, terminal_show_error,
}
use snake_posix.Terminal.Typed.{
  Answers, Answers->>-, PortFits, terminal_read_port-PortFits, terminal_read_string-fewer,
  terminal_show_error-fewer,
}
use snake_posix.Menu.{HostMenuOptions, host_menu_public, host_menu_private, non_empty}
use snake_posix.Menu.Host.{named, port_setting, ask_room_name, ask_port, ask_port_setting}

abbrev pub Named : Option Text → Type 0
Named none = Unit
Named (some name) = name ≢ []

-- A property of a value, if there is one.
abbrev pub IfAny : {A : Type 0} → (A → Type 0) → Option A → Type 0
IfAny P none = Unit
IfAny P (some a) = P a

pub non_empty-Named : (text : Text) → Named (non_empty text)
non_empty-Named [] = tt
non_empty-Named (c ∷ text) = λ e. cc

pub named-Named : (tb : Termbox) (libc : Libc) (r : ReadResult Text) → IfAny Named (named tb libc r)
named-Named tb libc read_cancelled = tt
named-Named tb libc read_empty = tt
named-Named tb libc read_invalid = tt
named-Named tb libc (read_success text) = non_empty-Named text

module _ (tb : Termbox) (libc : Libc) where
  pub ask_room_name-Named :
      (options : HostMenuOptions) (ids : ℕ × ℕ) (events : List Event) (screen : tb.Screen)
      → Answers
          (length events)
          (ask_room_name tb libc options ids events screen)
          (λ r left_. IfAny Named r)
  unfolding ask_room_name
  ask_room_name-Named host_menu_public ids events screen =
      Answers->>- (length events) (terminal_read_string tb _ events _) _ _ _
        (terminal_read_string-fewer tb libc _ events _)
        (λ result left_ shown fewer. (named-Named tb libc result, omega arith))
  ask_room_name-Named host_menu_private ids events screen = (λ e. cc, omega arith)

  -- The fuel of the loop that asks for a port is never used up.
  pub retry_port-PortFits :
      (again : List Event → tb.Screen → Asked tb (ReadResult ℕ)) (result : ReadResult ℕ)
      (events : List Event) (screen : tb.Screen)
      → PortFits result
      → ((left_ : List Event) (shown : tb.Screen)
          → length left_ < length events
          → Answers (length left_) (again left_ shown) (λ r l. PortFits r))
      → Answers (length events) (retry_port tb again result events screen) (λ r l. PortFits r)
  retry_port-PortFits again read_invalid events screen fits h =
      Answers->>- (length events) (terminal_show_error tb _ events screen) _ _ _
        (terminal_show_error-fewer tb _ events screen)
        (λ pressed left_ shown fewer. h left_ shown fewer)
  retry_port-PortFits again read_cancelled events screen fits h = (fits, omega arith)
  retry_port-PortFits again read_empty events screen fits h = (fits, omega arith)
  retry_port-PortFits again (read_success port) events screen fits h = (fits, omega arith)

  ask_port-PortFits :
      (fuel : ℕ) (room_name : Option Text) (events : List Event) (screen : tb.Screen)
      → length events < fuel
      → Answers
          (length events)
          (ask_port tb libc fuel room_name events screen)
          (λ r left_. PortFits r)
  unfolding ask_port
  ask_port-PortFits zero room_name events screen enough = absurd (omega arith)
  ask_port-PortFits (suc fuel) room_name events screen enough =
      Answers->>- (length events) (terminal_read_port tb libc _ events _) _ _ _
        (terminal_read_port-PortFits tb libc _ events _)
        (λ result left_ shown (fits, fewer).
          retry_port-PortFits (ask_port tb libc fuel room_name) result left_ shown fits
            (λ l s fewer'. ask_port-PortFits fuel room_name l s (omega arith)))

  port_setting-fits :
      (r : ReadResult ℕ) → PortFits r → IfAny (λ port. port < 2 ^ 16) (port_setting tb libc r)
  port_setting-fits read_cancelled h = tt
  port_setting-fits read_empty h = omega arith
  port_setting-fits read_invalid h = tt
  port_setting-fits (read_success port) h = h

  pub ask_port_setting-fits :
      (options : HostMenuOptions) (room_name : Option Text) (events : List Event)
      (screen : tb.Screen)
      → Answers
          (length events)
          (ask_port_setting tb libc options room_name events screen)
          (λ r left_. IfAny (λ port. port < 2 ^ 16) r)
  unfolding ask_port_setting
  ask_port_setting-fits host_menu_public room_name events screen =
      Answers->>- (length events) (ask_port tb libc (suc (length events)) room_name events screen) _
        _ _ (ask_port-PortFits (suc (length events)) room_name events screen (omega arith))
        (λ result left_ shown fits. (port_setting-fits result fits, omega arith))
  ask_port_setting-fits host_menu_private room_name events screen = (omega arith, omega arith)
