-- ===== src/Socket.antt =====
-- `libsnake/socket/socket.{h,c}`: the loops that read and write a whole buffer. Opening, accepting and
-- closing are calls of the system.
pub mod Bytes
pub mod Message
pub mod Encode
pub mod Decode
pub mod Tiles
pub mod Whole
pub mod Roundtrip
pub mod View
use package.snake_posix.Common.{
  ℕ, zero, suc, ◌+◌, ◌-◌, ◌*◌, ◌/◌, ◌%◌, ◌^◌, ◌≤◌, ◌<◌, ◌≡◌, refl, sym, ap, ◌∙◌, subst, ◌≢◌, ◌↔◌,
  ◌⊎◌, inl, inr, arith, Bool, true, false, not, ◌&&◌, ◌||◌, ◌==◌, ltb, leb, if◌then◌else◌, if_intro,
  Bool-cases, ==-refl, ==→≡, ==→≢, Option, none, some, Option-cases, List, [], ◌∷◌, ◌++◌,
}
use package.snake_posix.Common.{length, drop, take}
use package.snake_posix.Common.Outcome.{Outcome, ok, stuck}

-- What a socket relies on: `read` and `write` of the system, and the content of memory that was
-- not written. `none` is the result -1, a list the bytes that were read, a number of how many were
-- written.
pub record Socket : Type 1 where
  pub Fd : Type 0
  pub read : ℕ → Fd → Option (List ℕ) × Fd
  pub write : List ℕ → Fd → Option ℕ × Fd
  pub memory : ℕ → List ℕ

-- What `read` does to the memory behind its argument.
abbrev pub overwrite : List ℕ → List ℕ → List ℕ
overwrite bytes buffer = bytes ++ drop (length bytes) buffer

module _ (s : Socket) where
  -- The loop of `socket_read`. Each read goes to the start of the buffer. A read of 0 bytes, at the
  -- end of the stream, makes no progress, so a loop that does so does not end.
  unfoldable pub read_loop : ℕ → ℕ → ℕ → List ℕ → s.Fd → Outcome (Option (List ℕ) × s.Fd)
  read_loop zero buffer_length read_bytes buffer fd = stuck
  read_loop (suc fuel) buffer_length read_bytes buffer fd =
      if ltb read_bytes buffer_length
      then (let (result, fd') = s.read (buffer_length - read_bytes) fd in
          elim result [
            | none ↦ ok (none, fd')
            | some bytes ↦
                read_loop fuel buffer_length (read_bytes + length bytes) (overwrite bytes buffer)
                  fd'
          ])
      else ok (some buffer, fd)

  -- `none` is the result false.
  unfoldable pub socket_read : ℕ → s.Fd → Outcome (Option (List ℕ) × s.Fd)
  unfolding read_loop
  socket_read buffer_length fd =
      read_loop (buffer_length + 1) buffer_length 0 (s.memory buffer_length) fd

  -- The loop of `socket_write`. Each write begins with the start of the buffer.
  unfoldable pub write_loop : ℕ → List ℕ → ℕ → s.Fd → Outcome (Bool × s.Fd)
  write_loop zero buffer written_bytes fd = stuck
  write_loop (suc fuel) buffer written_bytes fd =
      if ltb written_bytes (length buffer)
      then (let (result, fd') = s.write (take (length buffer - written_bytes) buffer) fd in
          elim result [
            | none ↦ ok (false, fd')
            | some w ↦ write_loop fuel buffer (written_bytes + w) fd'
          ])
      else ok (true, fd)

  unfoldable pub socket_write : List ℕ → s.Fd → Outcome (Bool × s.Fd)
  unfolding write_loop
  socket_write buffer fd = write_loop (length buffer + 1) buffer 0 fd
