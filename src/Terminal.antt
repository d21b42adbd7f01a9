-- ===== src/Terminal.antt =====
-- `client/terminal.{h,c}`: what the user types. The events that `tb_poll_event` returns are a list; a
-- program that waits for an event after the last of them is `waiting`. The functions of the C library
-- that turn a number into a text and back are parameters.
pub mod Typed
use package.snake_posix.Common.{
  codes, ℕ, zero, suc, ◌+◌, ◌-◌, ◌*◌, ◌/◌, ◌%◌, ◌^◌, ◌≤◌, ◌<◌, ◌≡◌, refl, sym, ap, ◌∙◌, subst, ◌≢◌,
  ◌↔◌, ◌⊎◌, inl, inr, arith, Bool, true, false, not, ◌&&◌, ◌||◌, ◌==◌, ltb, leb, if◌then◌else◌,
  if_intro, Bool-cases, ==-refl, ==→≡, ==→≢, Option, none, some, Option-cases, List, [], ◌∷◌, ◌++◌,
}
use package.snake_posix.Common.{Text, length, take}
use package.snake_posix.Geometry.{Coordinates}
use package.snake_posix.Termbox.{Termbox, Cell, Color, color_default, color_red}

-- The keys that the program tells apart.
pub data TerminalKey : Type 0 where
  key_enter key_escape key_backspace key_backspace2 : TerminalKey
  key_other : ℕ → TerminalKey

-- An event of the type `TB_EVENT_KEY`, with its character, or another.
pub data Event : Type 0 where
  event_key : TerminalKey → (ch : ℕ) → Event
  event_other : Event

-- `atoi`, as the bits of its 32-bit result, and the conversion `%d` of `sprintf` for a number that is
-- not negative.
pub record Libc : Type 0 where
  pub atoi : Text → ℕ
  pub print_number : ℕ → Text

-- `terminal_read_result_t`, with what is stored where the reading succeeds.
pub data ReadResult {ℓ} (A : Type ℓ) : Type ℓ where
  read_cancelled read_empty read_invalid : ReadResult A
  read_success : A → ReadResult A

-- What comes of a dialogue: a result, with the events that are left and the screen.
pub data Asked (tb : Termbox) (A : Type 0) : Type 0 where
  answered : A → List Event → tb.Screen → Asked tb A
  waiting : Asked tb A
  overflow : Asked tb A  -- a write past the end of a buffer
  out_of_fuel : Asked tb A

abbrev pub buffer_size : ℕ
buffer_size = 256

module _ {tb : Termbox} where
  infixl 5 ◌>>-◌
  abbrev pub ◌>>-◌ :
      {A B : Type 0} → Asked tb A → (A → List Event → tb.Screen → Asked tb B) → Asked tb B
  answered a events screen >>- f = f a events screen
  waiting >>- f = waiting
  overflow >>- f = overflow
  out_of_fuel >>- f = out_of_fuel

  -- What follows, unless the function returns `NULL` here.
  abbrev pub if_some :
      {A B : Type 0}
      → Option A
      → (A → List Event → tb.Screen → Asked tb (Option B))
      → List Event
      → tb.Screen
      → Asked tb (Option B)
  if_some none f events screen = answered none events screen
  if_some (some a) f events screen = f a events screen

-- The characters that `terminal_read` takes.
unfoldable pub accepts : Bool → ℕ → Bool
accepts read_letters ch =
    (leb b'0' ch && leb ch b'9')
    || ((read_letters
          && ((leb b'a' ch && leb ch b'z')
              || (leb b'A' ch && leb ch b'Z')
              || (ch == b'.')
              || (ch == b'-')
              || (ch == b'.')))
        || (ch == b'_'))

abbrev pub success_or_cancelled : Option Text → ReadResult Text
success_or_cancelled none = read_cancelled
success_or_cancelled (some text) = read_success text

abbrev pub coordinate_of : Libc → Option Text → ReadResult ℕ
coordinate_of libc none = read_cancelled
coordinate_of libc (some text) = read_success (libc.atoi text)

-- A negative `int` has its first bit set.
abbrev pub port_of : Libc → Option Text → ReadResult ℕ
port_of libc none = read_cancelled
port_of libc (some []) = read_empty
port_of libc (some (c ∷ text)) =
    let port = libc.atoi (c ∷ text) in
    if leb (2 ^ 31) port || ltb 65535 port then read_invalid else read_success port

module _ (tb : Termbox) where
  unfoldable pub terminal_update_relative_cell : tb.Screen → Coordinates → ℕ → ℕ → tb.Screen
  terminal_update_relative_cell screen coordinates character index =
      let moved_index = coordinates.column + index in
      let width = tb.tb_width screen in
      let x = moved_index % width in
      let y = coordinates.row + moved_index / width in
      let cell : Cell = record {
        character = character;
        foreground = color_default;
        background = color_default;
      } in
      tb.tb_present
        (tb.tb_set_cursor (tb.tb_set_cell screen x y cell) ((x + 1) % width) (y + (x + 1) / width))

  unfoldable pub terminal_erase_relative_cell : tb.Screen → Coordinates → ℕ → tb.Screen
  terminal_erase_relative_cell screen coordinates index =
      let moved_index = coordinates.column + index in
      let width = tb.tb_width screen in
      let x = moved_index % width in
      let y = coordinates.row + moved_index / width in
      let cell : Cell = record {
        character = b' ';
        foreground = color_default;
        background = color_default;
      } in
      tb.tb_present (tb.tb_set_cursor (tb.tb_set_cell screen x y cell) x y)

  -- The loop of `terminal_read` and what follows it; `none` where the user cancels. The source stores a
  -- character, and at last the zero, without a look at the size of the caller's buffer: where that is
  -- full, the write is undefined behaviour, which `overflow` stands for.
  unfoldable pub read_keys :
      Coordinates → Bool → Text → List Event → tb.Screen → Asked tb (Option Text)
  read_keys coordinates read_letters buffer [] screen = waiting
  read_keys coordinates read_letters buffer (event_other ∷ events) screen =
      read_keys coordinates read_letters buffer events screen
  read_keys coordinates read_letters buffer (event_key key_enter ch ∷ events) screen =
      if ltb (length buffer) buffer_size
      then answered (some buffer) events (tb.tb_hide_cursor screen)
      else overflow
  read_keys coordinates read_letters buffer (event_key key_escape ch ∷ events) screen =
      answered none events (tb.tb_present (tb.tb_hide_cursor screen))
  read_keys coordinates read_letters buffer (event_key key_backspace ch ∷ events) screen =
      elim (ltb 0 (length buffer)) [
        | true ↦
            read_keys coordinates read_letters (take (length buffer - 1) buffer) events
              (terminal_erase_relative_cell screen coordinates (length buffer - 1))
        | false ↦ read_keys coordinates read_letters buffer events screen
      ]
  read_keys coordinates read_letters buffer (event_key key_backspace2 ch ∷ events) screen =
      elim (ltb 0 (length buffer)) [
        | true ↦
            read_keys coordinates read_letters (take (length buffer - 1) buffer) events
              (terminal_erase_relative_cell screen coordinates (length buffer - 1))
        | false ↦ read_keys coordinates read_letters buffer events screen
      ]
  read_keys coordinates read_letters buffer (event_key (key_other n) ch ∷ events) screen =
      elim (accepts read_letters ch) [
        | true ↦ elim (ltb (length buffer) buffer_size) [
          | true ↦
              read_keys coordinates read_letters (buffer ++ ch ∷ []) events
                (terminal_update_relative_cell screen coordinates ch (length buffer))
          | false ↦ overflow
        ]
        | false ↦ read_keys coordinates read_letters buffer events screen
      ]

  unfoldable pub terminal_read :
      Coordinates → Bool → List Event → tb.Screen → Asked tb (Option Text)
  terminal_read coordinates read_letters events screen =
      read_keys coordinates read_letters [] events
        (tb.tb_present (tb.tb_set_cursor screen coordinates.column coordinates.row))

  unfoldable pub terminal_read_string :
      Coordinates → List Event → tb.Screen → Asked tb (ReadResult Text)
  terminal_read_string coordinates events screen =
      terminal_read coordinates true events screen
      >>- (λ buffer. answered (success_or_cancelled buffer))

  unfoldable pub terminal_read_hostname :
      Coordinates → List Event → tb.Screen → Asked tb (ReadResult Text)
  terminal_read_hostname coordinates events screen =
      terminal_read coordinates true events screen
      >>- (λ buffer. answered (success_or_cancelled buffer))

  unfoldable pub terminal_read_coordinate :
      Libc → Coordinates → List Event → tb.Screen → Asked tb (ReadResult ℕ)
  terminal_read_coordinate libc coordinates events screen =
      terminal_read coordinates false events screen
      >>- (λ buffer. answered (coordinate_of libc buffer))

  unfoldable pub terminal_read_port :
      Libc → Coordinates → List Event → tb.Screen → Asked tb (ReadResult ℕ)
  terminal_read_port libc coordinates events screen =
      terminal_read coordinates false events screen >>- (λ buffer. answered (port_of libc buffer))

  unfoldable pub terminal_wait_for_key_press : List Event → tb.Screen → Asked tb Unit
  terminal_wait_for_key_press [] screen = waiting
  terminal_wait_for_key_press (event_other ∷ events) screen =
      terminal_wait_for_key_press events screen
  terminal_wait_for_key_press (event_key key ch ∷ events) screen = answered tt events screen

  unfoldable pub terminal_show_notif : Text → Color → List Event → tb.Screen → Asked tb Unit
  terminal_show_notif message color events screen =
      terminal_wait_for_key_press events
        (tb.tb_present (tb.tb_print (tb.tb_clear screen) 0 0 color color_default message))

  unfoldable pub terminal_show_info : Text → List Event → tb.Screen → Asked tb Unit
  terminal_show_info message = terminal_show_notif message color_default

  unfoldable pub terminal_show_error : Text → List Event → tb.Screen → Asked tb Unit
  terminal_show_error message = terminal_show_notif message color_red

  -- The end of a turn of a loop that asks for a port until it is valid.
  abbrev pub retry_port :
      (List Event → tb.Screen → Asked tb (ReadResult ℕ))
      → ReadResult ℕ
      → List Event
      → tb.Screen
      → Asked tb (ReadResult ℕ)
  retry_port again read_invalid events screen =
      terminal_show_error (codes "Invalid port.") events screen >>- (λ pressed. again)
  retry_port again result events screen = answered result events screen
