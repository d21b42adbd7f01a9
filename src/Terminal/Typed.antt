-- ===== src/Terminal/Typed.antt =====
-- What comes of reading from the terminal.
use snake_posix.Common.{
  ℕ, zero, suc, ◌+◌, ◌-◌, ◌^◌, ◌≤◌, ◌<◌, ◌≡◌, inl, inr, arith, Bool, true, false, ◌||◌, ltb, leb,
  if_intro, Bool-cases, Option, none, some, List, [], ◌∷◌, ◌++◌,
}
use snake_posix.Common.{Text, length, length-append, take}
use snake_posix.Geometry.{Coordinates}
use snake_posix.Termbox.{Termbox}
use snake_posix.Terminal.{
  Libc, Event, event_key, event_other, key_escape, key_enter, key_backspace, key_backspace2,
  key_other, ReadResult, read_invalid, read_success, Asked, answered, waiting, overflow,
  out_of_fuel, ◌>>-◌, accepts, read_keys, terminal_read, terminal_read_string,
  terminal_read_coordinate, terminal_read_port, terminal_wait_for_key_press, terminal_show_notif,
  terminal_show_error, buffer_size, port_of,
}

module _ {tb : Termbox} where
  -- Of a dialogue that has at most `n` events: it does not run out of fuel, an answer and the events that
  -- are left have the property, and a write past the end of a buffer needs as many events as the buffer
  -- has places.
  abbrev pub Answers : {A : Type 0} → ℕ → Asked tb A → (A → List Event → Type 0) → Type 0
  Answers n (answered a events screen) P = P a events × (length events ≤ n)
  Answers n waiting P = Unit
  Answers n overflow P = buffer_size ≤ n
  Answers n out_of_fuel P = ⊥

  pub Answers-mono :
      {A : Type 0} (n k : ℕ) (m : Asked tb A) (P Q : A → List Event → Type 0)
      → n ≤ k
      → Answers n m P
      → ((a : A) (events : List Event) → P a events → Q a events)
      → Answers k m Q
  Answers-mono n k (answered a events screen) P Q l (h, few) f = (f a events h, omega arith)
  Answers-mono n k waiting P Q l h f = tt
  Answers-mono n k overflow P Q l h f = omega arith
  Answers-mono n k out_of_fuel P Q l h f = absurd h

  pub Answers->>- :
      {A B : Type 0} (n : ℕ) (m : Asked tb A) (f : A → List Event → tb.Screen → Asked tb B)
      (P : A → List Event → Type 0) (Q : B → List Event → Type 0)
      → Answers n m P
      → ((a : A) (events : List Event) (screen : tb.Screen)
          → P a events
          → Answers (length events) (f a events screen) Q)
      → Answers n (m >>- f) Q
  Answers->>- n (answered a events screen) f P Q (h, few) k =
      Answers-mono (length events) n (f a events screen) Q Q few (k a events screen h) (λ b l q. q)
  Answers->>- n waiting f P Q h k = tt
  Answers->>- n overflow f P Q h k = h
  Answers->>- n out_of_fuel f P Q h k = absurd h

-- Every character of the text is one that is taken.
abbrev pub Accepted : Bool → Text → Type 0
Accepted letters [] = Unit
Accepted letters (c ∷ text) = (accepts letters c ≡ true) × Accepted letters text

Accepted-append :
    (letters : Bool) (text : Text) (c : ℕ)
    → Accepted letters text
    → accepts letters c ≡ true
    → Accepted letters (text ++ c ∷ [])
Accepted-append letters [] c h e = (e, tt)
Accepted-append letters (d ∷ text) c (e', h) e = (e', Accepted-append letters text c h e)

Accepted-take :
    (letters : Bool) (n : ℕ) (text : Text) → Accepted letters text → Accepted letters (take n text)
Accepted-take letters zero text h = tt
Accepted-take letters (suc n) [] h = tt
Accepted-take letters (suc n) (d ∷ text) (e, h) = (e, Accepted-take letters n text h)

-- What a reading leaves: a text of characters that are taken, which fits the buffer with the zero
-- after it, unless it was left, and fewer events.
abbrev pub Typed : Bool → List Event → Option Text → List Event → Type 0
Typed letters events none left_ = length left_ < length events
Typed letters events (some text) left_ =
    Accepted letters text × (length text < buffer_size) × (length left_ < length events)

Typed-later :
    (letters : Bool) (event : Event) (events : List Event) (text : Option Text) (left_ : List Event)
    → Typed letters events text left_
    → Typed letters (event ∷ events) text left_
Typed-later letters event events none left_ h = omega arith
Typed-later letters event events (some text) left_ (h, fits, fewer) = (h, fits, omega arith)

length-append_one : (buffer : Text) (c : ℕ) → length (buffer ++ c ∷ []) ≡ suc (length buffer)
length-append_one buffer c = omega (arith, length-append buffer (c ∷ []))

length-take_le : (n : ℕ) (text : Text) → length (take n text) ≤ length text
length-take_le zero text = omega arith
length-take_le (suc n) [] = omega arith
length-take_le (suc n) (c ∷ text) = let h = length-take_le n text in omega arith

module _ (tb : Termbox) (coordinates : Coordinates) (letters : Bool) (n : ℕ) where
  later :
      (event : Event) (events : List Event) (m : Asked tb (Option Text))
      → Answers n m (Typed letters events)
      → Answers n m (Typed letters (event ∷ events))
  later event events m h = Answers-mono n n m _ _ (omega arith) h (Typed-later letters event events)

  -- Each event puts at most one character into the buffer.
  read_keys-Typed :
      (buffer : Text) (events : List Event) (screen : tb.Screen)
      → Accepted letters buffer
      → length buffer + length events ≤ n
      → Answers n (read_keys tb coordinates letters buffer events screen) (Typed letters events)
  unfolding read_keys
  read_keys-Typed buffer [] screen h few = tt
  read_keys-Typed buffer (event_other ∷ events) screen h few =
      later event_other events _ (read_keys-Typed buffer events screen h (omega arith))
  read_keys-Typed buffer (event_key key_enter ch ∷ events) screen h few =
      if_intro
        (λ (m : Asked tb (Option Text)).
          Answers n m (Typed letters (event_key key_enter ch ∷ events)))
        (ltb (length buffer) buffer_size) (answered (some buffer) events (tb.tb_hide_cursor screen))
        overflow (λ e. ((h, ground arith, omega arith), omega arith)) (λ e. ground arith)
  read_keys-Typed buffer (event_key key_escape ch ∷ events) screen h few =
      (omega arith, omega arith)
  read_keys-Typed buffer (event_key key_backspace ch ∷ events) screen h few =
      elim (Bool-cases (ltb 0 (length buffer))) [
        | inl e ↦
            let shorter = length-take_le (length buffer - 1) buffer in
            rw (e, read_keys)
              (later (event_key key_backspace ch) events _ (
                read_keys-Typed (take (length buffer - 1) buffer) events _
                  (Accepted-take letters _ buffer h) (omega arith)))
        | inr e ↦
            rw (e, read_keys)
              (later (event_key key_backspace ch) events _
                (read_keys-Typed buffer events screen h (omega arith)))
      ]
  read_keys-Typed buffer (event_key key_backspace2 ch ∷ events) screen h few =
      elim (Bool-cases (ltb 0 (length buffer))) [
        | inl e ↦
            let shorter = length-take_le (length buffer - 1) buffer in
            rw (e, read_keys)
              (later (event_key key_backspace2 ch) events _ (
                read_keys-Typed (take (length buffer - 1) buffer) events _
                  (Accepted-take letters _ buffer h) (omega arith)))
        | inr e ↦
            rw (e, read_keys)
              (later (event_key key_backspace2 ch) events _
                (read_keys-Typed buffer events screen h (omega arith)))
      ]
  read_keys-Typed buffer (event_key (key_other k) ch ∷ events) screen h few =
      elim (Bool-cases (accepts letters ch)) [
        | inl e ↦ elim (Bool-cases (ltb (length buffer) buffer_size)) [
          | inl f ↦
              let longer = length-append_one buffer ch in
              rw (e, f, read_keys)
                (later (event_key (key_other k) ch) events _ (
                  read_keys-Typed (buffer ++ ch ∷ []) events _
                    (Accepted-append letters buffer ch h e) (omega arith)))
          | inr f ↦ rw (e, f, read_keys) (ground arith)
        ]
        | inr e ↦
            rw (e, read_keys)
              (later (event_key (key_other k) ch) events _
                (read_keys-Typed buffer events screen h (omega arith)))
      ]

module _ (tb : Termbox) (coordinates : Coordinates) (letters : Bool) where
  -- A text that is read, letters or not, is one of characters that are taken, and fits the buffer with
  -- the zero after it; where the reading ends, events are used up. It writes past the end of the buffer
  -- only if there are at least 256 events.
  pub terminal_read-Typed :
      (events : List Event) (screen : tb.Screen)
      → Answers
          (length events)
          (terminal_read tb coordinates letters events screen)
          (Typed letters events)
  unfolding terminal_read
  terminal_read-Typed events screen =
      read_keys-Typed tb coordinates letters (length events) [] events _ tt (omega arith)

Typed-fewer :
    (letters : Bool) (events : List Event) (text : Option Text) (left_ : List Event)
    → Typed letters events text left_
    → length left_ < length events
Typed-fewer letters events none left_ h = h
Typed-fewer letters events (some text) left_ (h, fits, fewer) = fewer

-- A port that is read fits 16 bits.
abbrev pub PortFits : ReadResult ℕ → Type 0
PortFits (read_success port) = port < 2 ^ 16
PortFits _ = Unit

port_of-PortFits : (libc : Libc) (text : Option Text) → PortFits (port_of libc text)
port_of-PortFits libc none = tt
port_of-PortFits libc (some []) = tt
port_of-PortFits libc (some (c ∷ text)) =
    let port = libc.atoi (c ∷ text) in
    if_intro PortFits (leb (2 ^ 31) port || ltb 65535 port) read_invalid (read_success port)
      (λ e. tt) (λ e. ground arith)

module _ (tb : Termbox) (libc : Libc) (coordinates : Coordinates) where
  pub terminal_read_port-PortFits :
      (events : List Event) (screen : tb.Screen)
      → Answers
          (length events)
          (terminal_read_port tb libc coordinates events screen)
          (λ r left_. PortFits r × (length left_ < length events))
  unfolding terminal_read_port
  terminal_read_port-PortFits events screen =
      Answers->>- (length events) (terminal_read tb coordinates false events screen) _ _ _
        (terminal_read-Typed tb coordinates false events screen)
        (λ text left_ shown h.
          ((port_of-PortFits libc text, Typed-fewer false events text left_ h), omega arith))

  pub terminal_read_string-fewer :
      (events : List Event) (screen : tb.Screen)
      → Answers
          (length events)
          (terminal_read_string tb coordinates events screen)
          (λ r left_. length left_ < length events)
  unfolding terminal_read_string
  terminal_read_string-fewer events screen =
      Answers->>- (length events) (terminal_read tb coordinates true events screen) _ _ _
        (terminal_read-Typed tb coordinates true events screen)
        (λ text left_ shown h. (Typed-fewer true events text left_ h, omega arith))

  pub terminal_read_coordinate-fewer :
      (events : List Event) (screen : tb.Screen)
      → Answers
          (length events)
          (terminal_read_coordinate tb libc coordinates events screen)
          (λ r left_. length left_ < length events)
  unfolding terminal_read_coordinate
  terminal_read_coordinate-fewer events screen =
      Answers->>- (length events) (terminal_read tb coordinates false events screen) _ _ _
        (terminal_read-Typed tb coordinates false events screen)
        (λ text left_ shown h. (Typed-fewer false events text left_ h, omega arith))

module _ (tb : Termbox) where
  wait-fewer :
      (events : List Event) (screen : tb.Screen)
      → Answers
          (length events)
          (terminal_wait_for_key_press tb events screen)
          (λ r left_. length left_ < length events)
  unfolding terminal_wait_for_key_press
  wait-fewer [] screen = tt
  wait-fewer (event_other ∷ events) screen =
      Answers-mono (length events) _ (terminal_wait_for_key_press tb events screen) _ _
        (omega arith) (wait-fewer events screen) (λ a left_ h. omega arith)
  wait-fewer (event_key key ch ∷ events) screen = (omega arith, omega arith)

  pub terminal_show_error-fewer :
      (message : Text) (events : List Event) (screen : tb.Screen)
      → Answers
          (length events)
          (terminal_show_error tb message events screen)
          (λ r left_. length left_ < length events)
  unfolding terminal_show_error terminal_show_notif
  terminal_show_error-fewer message events screen = wait-fewer events _
