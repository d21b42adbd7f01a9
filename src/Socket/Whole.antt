-- ===== src/Socket/Whole.antt =====
-- `socket_read` of `libsnake/socket.c`, where each read gives all bytes that it asks for.
use snake_posix.Common.{
  ℕ, suc, ◌+◌, ◌-◌, ◌≤◌, ◌<◌, ◌≡◌, refl, sym, ap, ◌∙◌, subst, arith, true, false, ltb, Option, some,
  List, [], ◌∷◌, ◌++◌,
}
use snake_posix.Common.{length, drop}
use native.Mathlib.Numerals.{add-one}
use snake_posix.Common.Outcome.{Outcome, ok}
use snake_posix.Socket.{Socket, overwrite, read_loop, socket_read}
use snake_posix.Socket.Bytes.{drop-length}
use snake_posix.Socket.Message.{SocketMessage}
use snake_posix.Socket.Decode.{reading}

-- The bytes that wait in the socket, where a read of at least one byte gives all that it asks for
-- if as many wait.
pub record Whole (s : Socket) (Waits : s.Fd → List ℕ → Type 0) : Type 0 where
  pub whole :
      (fd : s.Fd) (bytes rest : List ℕ)
      → 0 < length bytes
      → Waits fd (bytes ++ rest)
      → (fd' : s.Fd) × (s.read (length bytes) fd ≡ (some bytes, fd')) × Waits fd' rest
  pub memory_size : (n : ℕ) → length (s.memory n) ≡ n

pub append_nil : (xs : List ℕ) → xs ++ [] ≡ xs
append_nil [] = refl
append_nil (x ∷ xs) = ap (λ l. x ∷ l) (append_nil xs)

drop_all : (xs : List ℕ) (n : ℕ) → length xs ≡ n → drop n xs ≡ []
drop_all xs n e = ap (drop n) (sym (append_nil xs)) ∙ drop-length xs [] n e

no_bytes : (xs : List ℕ) → length xs ≡ 0 → xs ≡ []
no_bytes [] e = refl
no_bytes (x ∷ xs) e = absurd (omega arith)

module _ (s : Socket) where
  read_loop-read :
      (fuel n r : ℕ) (buffer bytes : List ℕ) (fd fd' : s.Fd)
      → r < n
      → s.read (n - r) fd ≡ (some bytes, fd')
      → read_loop s (suc fuel) n r buffer fd
        ≡ read_loop s fuel n (r + length bytes) (overwrite bytes buffer) fd'
  unfolding read_loop
  read_loop-read fuel n r buffer bytes fd fd' l e =
      let more : ltb r n ≡ true = ground arith in
      rw (more, ap (λ x. x.0) e)
        (ap (λ x. read_loop s fuel n (r + length bytes) (overwrite bytes buffer) x.1) e)

  read_loop-done :
      (fuel n r : ℕ) (buffer : List ℕ) (fd : s.Fd)
      → n ≤ r
      → read_loop s (suc fuel) n r buffer fd ≡ ok (some buffer, fd)
  unfolding read_loop
  read_loop-done fuel n r buffer fd l = let full : ltb r n ≡ false = ground arith in rw full refl

module _ {s : Socket} {Waits : s.Fd → List ℕ → Type 0} (w : Whole s Waits) where
  read-whole :
      (fd : s.Fd) (bytes rest : List ℕ)
      → Waits fd (bytes ++ rest)
      → (fd' : s.Fd) × (socket_read s (length bytes) fd ≡ ok (some bytes, fd')) × Waits fd' rest
  unfolding socket_read read_loop
  read-whole fd [] rest h =
      (fd, ap (λ b. ok (some b, fd)) (no_bytes (s.memory 0) (w.memory_size 0)), h)
  read-whole fd (x ∷ xs) rest h =
      let (fd', e, h') = w.whole fd (x ∷ xs) rest (omega arith) h in
      let n = length (x ∷ xs) in
      let full : overwrite (x ∷ xs) (s.memory n) ≡ x ∷ xs =
        ap (λ l. (x ∷ xs) ++ l) (drop_all (s.memory n) n (w.memory_size n)) ∙ append_nil (x ∷ xs) in
      let same : n ≡ n - 0 = omega arith in
      let whole_read = subst (λ k. s.read k fd ≡ (some (x ∷ xs), fd')) same e in
      (
        fd',
        ap (λ k. read_loop s k n 0 (s.memory n) fd) (add-one n)
            ∙ read_loop-read s n n 0 (s.memory n) (x ∷ xs) fd fd' (omega arith) whole_read
            ∙ read_loop-done s (length xs) n (0 + n) (overwrite (x ∷ xs) (s.memory n)) fd'
                (omega arith)
            ∙ ap (λ b. ok (some b, fd')) full,
        h',
      )

  -- The same for a count that is known otherwise.
  read_whole_lem :
      (n : ℕ) (fd : s.Fd) (bytes rest : List ℕ)
      → length bytes ≡ n
      → Waits fd (bytes ++ rest)
      → (fd' : s.Fd) × (socket_read s n fd ≡ ok (some bytes, fd')) × Waits fd' rest
  read_whole_lem n fd bytes rest e h =
      subst (λ k. (fd' : s.Fd) × (socket_read s k fd ≡ ok (some bytes, fd')) × Waits fd' rest) e
        (read-whole fd bytes rest h)

  -- What the rest of a function makes of the bytes, it makes of them once they are read.
  unfoldable pub Read :
      (fd : s.Fd) → Outcome (Option SocketMessage × s.Fd) → SocketMessage → List ℕ → Type 0
  Read fd o m rest = (fd' : s.Fd) × (o ≡ ok (some m, fd')) × Waits fd' rest

  pub reading_lem :
      (n : ℕ) (use_buffer : List ℕ → s.Fd → Outcome (Option SocketMessage × s.Fd))
      (m : SocketMessage) (fd : s.Fd) (bytes rest rest' : List ℕ)
      → length bytes ≡ n
      → Waits fd (bytes ++ rest)
      → ((fd' : s.Fd) → Waits fd' rest → Read fd' (use_buffer bytes fd') m rest')
      → Read fd (reading s n use_buffer fd) m rest'
  unfolding Read
  reading_lem n use_buffer m fd bytes rest rest' e h k =
      let (fd1, e1, h1) = read_whole_lem n fd bytes rest e h in
      let (fd2, e2, h2) = k fd1 h1 in (fd2, rw e1 e2, h2)

  -- A function that reads all its bytes at once.
  pub Read-once :
      (n : ℕ) (decode : List ℕ → SocketMessage) (m : SocketMessage) (fd : s.Fd)
      (bytes rest : List ℕ)
      → length bytes ≡ n
      → decode bytes ≡ m
      → Waits fd (bytes ++ rest)
      → Read fd (reading s n (λ b fd. ok (some (decode b), fd)) fd) m rest
  unfolding Read
  Read-once n decode m fd bytes rest e d h =
      reading_lem n (λ b fd. ok (some (decode b), fd)) m fd bytes rest rest e h
        (λ fd' h'. (fd', ap (λ x. ok (some x, fd')) d, h'))
