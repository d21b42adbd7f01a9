-- ===== src/Connection/Handler.antt =====
-- `server/client_connection_handler.c`: the thread that accepts connections. Its array is a function of
-- its index; the threads of a connection, which `client_connection_init` starts, are in
-- `Connection.antt`.
use snake_posix.Common.{
  ℕ, suc, ◌+◌, ◌*◌, ◌%◌, ◌^◌, ◌≤◌, ◌<◌, ◌≡◌, inl, inr, arith, Bool, false, ◌&&◌, ◌==◌,
  if◌then◌else◌, Bool-cases, Option, some, List, [], ◌∷◌,
}
use snake_posix.Socket.Message.{SocketMessage, message_magic_bytes}
use snake_posix.Connection.{ClientConnection, player_id_not_registered}

-- `GAME_MAGIC_BYTES_CORRECT`
abbrev pub game_magic_bytes_correct : (b0 b1 b2 b3 : ℕ) → Bool
game_magic_bytes_correct b0 b1 b2 b3 = (b0 == 42) && (b1 == 37) && (b2 == 13) && (b3 == 31)

-- The first message of a connection; `none` where none can be read.
unfoldable pub client_connection_handler_verify_magic_bytes : Option SocketMessage → Bool
client_connection_handler_verify_magic_bytes (some (message_magic_bytes b0 b1 b2 b3)) =
    game_magic_bytes_correct b0 b1 b2 b3
client_connection_handler_verify_magic_bytes _ = false

pub record ClientConnectionHandler : Type 0 where
  pub connections : ℕ → ClientConnection
  pub connections_size : ℕ
  pub connections_capacity : ℕ

-- The memory of the connections is that of `self`.
unfoldable pub client_connection_handler_init : ClientConnectionHandler → ClientConnectionHandler
client_connection_handler_init self = record self { connections_size = 0; connections_capacity = 4 }

-- The fields that `client_connection_init` sets before it starts the threads.
unfoldable pub client_connection_init : ClientConnection
client_connection_init = record { shutdown = false; player_id = player_id_not_registered }

-- The growth of the array.
unfoldable pub grow : ClientConnectionHandler → ClientConnectionHandler
grow self =
    if self.connections_capacity == self.connections_size
    then record self { connections_capacity = self.connections_capacity * 2 % 2 ^ 64 }
    else self

unfoldable pub add_connection : ClientConnectionHandler → ClientConnectionHandler
add_connection self = record self {
  connections =
      λ i. if i == self.connections_size then client_connection_init else self.connections i;
  connections_size = (self.connections_size + 1) % 2 ^ 64;
}

-- The body of the loop of `client_connection_handler_main`, for a connection with this first message.
unfoldable pub accept_connection :
    ClientConnectionHandler → Option SocketMessage → ClientConnectionHandler
accept_connection self message =
    if client_connection_handler_verify_magic_bytes message
    then add_connection (grow self)
    else self

-- The loop over the connections that come, while the handler is not shut down.
unfoldable pub accept_all :
    ClientConnectionHandler → List (Option SocketMessage) → ClientConnectionHandler
accept_all self [] = self
accept_all self (message ∷ messages) = accept_all (accept_connection self message) messages

-- How many of the first messages are the magic bytes.
unfoldable pub count_verified : List (Option SocketMessage) → ℕ
count_verified [] = 0
count_verified (message ∷ messages) =
    if client_connection_handler_verify_magic_bytes message
    then suc (count_verified messages)
    else count_verified messages

-- The connections are in the array, which has room for at least four and for at most twice as many as
-- there are.
pub record Fits (self : ClientConnectionHandler) : Type 0 where
  pub within : self.connections_size ≤ self.connections_capacity
  pub least : 4 ≤ self.connections_capacity
  pub most : self.connections_capacity ≤ 4 + 2 * self.connections_size

module _ (self : ClientConnectionHandler) (fits : Fits self)
    (few : self.connections_size + 1 < 2 ^ 62) where
  -- The place that the new connection is written to is in the array.
  grow-room : (grow self).connections_size < (grow self).connections_capacity
  unfolding grow
  grow-room = ground (arith, fits.within, fits.least, fits.most)

  add-Fits : Fits (add_connection (grow self))
  unfolding grow add_connection
  add-Fits = record {
    within = ground (arith, fits.within, fits.least, fits.most);
    least = ground (arith, fits.within, fits.least, fits.most);
    most = ground (arith, fits.within, fits.least, fits.most);
  }

  add-size : (add_connection (grow self)).connections_size ≡ self.connections_size + 1
  unfolding grow add_connection
  add-size = ground arith

-- However many connections come, below 2 ^ 61, their number is that of those that begin with the magic
-- bytes, and the array has a place for each.
pub accept_all-Fits :
    (self : ClientConnectionHandler) (messages : List (Option SocketMessage))
    → Fits self
    → self.connections_size + count_verified messages < 2 ^ 61
    → Fits (accept_all self messages)
      × ((accept_all self messages).connections_size
          ≡ self.connections_size + count_verified messages)
unfolding accept_all count_verified accept_connection
accept_all-Fits self [] fits few = (fits, omega arith)
accept_all-Fits self (message ∷ messages) fits few =
    elim (Bool-cases (client_connection_handler_verify_magic_bytes message)) [
      | inl e ↦
          let few' : self.connections_size + suc (count_verified messages) < 2 ^ 61 = rw e at few in
          let room : self.connections_size + 1 < 2 ^ 62 = omega arith in
          let size = add-size self fits room in
          let (fits', size') =
            accept_all-Fits (add_connection (grow self)) messages (add-Fits self fits room)
              (omega (arith, size)) in
          rw (e, accept_all) (fits', omega (arith, size, size'))
      | inr e ↦ rw (e, accept_all) (accept_all-Fits self messages fits (rw e at few))
    ]
