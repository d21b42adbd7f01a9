-- ===== src/Connection/Receive.antt =====
-- What a message of a client does.
use snake_posix.Common.{
  ℕ, ◌≡◌, refl, ◌≢◌, Bool, true, false, ◌==◌, if_intro, Option, none, some, ==→≡, ==→≢,
}
use snake_posix.Geometry.{Direction, up}
use snake_posix.Player.{PlayerManager}
use snake_posix.Player.Registry.{
  Request, to_pause, to_unpause, to_respawn, Requested, requests-Requested,
}
use snake_posix.Socket.Message.{
  SocketMessage, message_magic_bytes, message_game_full, message_connected, message_map,
  message_tile_change, message_player_state, message_direction, message_disconnect,
  message_game_end, message_pause, message_unpause, message_respawn,
}
use snake_posix.Connection.{ClientConnection, player_id_not_registered, if_registered, receive}

-- The request that a message stands for.
abbrev request_of : SocketMessage → Option Request
request_of message_pause = some to_pause
request_of message_unpause = some to_unpause
request_of message_respawn = some to_respawn
request_of _ = none

abbrev is_direction : SocketMessage → Bool
is_direction (message_direction d) = true
is_direction _ = false

-- The effect of one message on a connection and the players, and whether the loop goes on.
pub data Received (self : ClientConnection) (manager : PlayerManager)
    : SocketMessage → ClientConnection × PlayerManager × Bool → Type 0 where
  requested :
      (m : SocketMessage) (r : Request) (manager' : PlayerManager)
      → request_of m ≡ some r
      → self.player_id ≢ player_id_not_registered
      → Requested r manager self.player_id manager'
      → Received self manager m (self, manager', true)
  turned :
      (d : Direction) (manager' : PlayerManager)
      → self.player_id ≢ player_id_not_registered
      → manager'.players self.player_id ≡ record (manager.players self.player_id) { direction = d }
      → ((q : ℕ) → q ≢ self.player_id → manager'.players q ≡ manager.players q)
      → Received self manager (message_direction d) (self, manager', true)
  not_registered :
      (m : SocketMessage)
      → self.player_id ≡ player_id_not_registered
      → Received self manager m (record self { shutdown = true }, manager, false)
  not_for_the_server :
      (m : SocketMessage)
      → request_of m ≡ none
      → is_direction m ≡ false
      → Received self manager m (record self { shutdown = true }, manager, false)

module _ (self : ClientConnection) (manager : PlayerManager) where
  if_registered-Received :
      (m : SocketMessage) (manager' : PlayerManager)
      → (self.player_id ≢ player_id_not_registered → Received self manager m (self, manager', true))
      → Received self manager m (if_registered self manager manager')
  if_registered-Received m manager' h =
      if_intro (Received self manager m) (self.player_id == player_id_not_registered) _ _
        (λ e. not_registered m (==→≡ self.player_id player_id_not_registered e))
        (λ e. h (==→≢ self.player_id player_id_not_registered e))

  -- A message of a client whose player is registered that asks to pause, to go on or to respawn does
  -- that to the player, one with a direction turns it, and the loop goes on. Every other message, and
  -- any of a client whose player is not registered, changes no player, and the connection is shut
  -- down and the loop left.
  pub receive-Received : (m : SocketMessage) → Received self manager m (receive self manager m)
  unfolding receive
  receive-Received (message_direction d) =
      let r = requests-Requested manager self.player_id d in
      if_registered-Received (message_direction d) _ (λ ne. turned d _ ne r.4 r.5)
  receive-Received message_pause = if_registered-Received message_pause _ (λ ne.
      requested message_pause to_pause _ refl ne (requests-Requested manager self.player_id up).0)
  receive-Received message_unpause = if_registered-Received message_unpause _ (λ ne.
      requested message_unpause to_unpause _ refl ne
        (requests-Requested manager self.player_id up).1)
  receive-Received message_respawn = if_registered-Received message_respawn _ (λ ne.
      requested message_respawn to_respawn _ refl ne
        (requests-Requested manager self.player_id up).2)
  receive-Received message_disconnect = not_for_the_server _ refl refl
  receive-Received (message_magic_bytes b0 b1 b2 b3) = not_for_the_server _ refl refl
  receive-Received message_game_full = not_for_the_server _ refl refl
  receive-Received message_connected = not_for_the_server _ refl refl
  receive-Received (message_map d) = not_for_the_server _ refl refl
  receive-Received (message_tile_change row column tile) = not_for_the_server _ refl refl
  receive-Received (message_player_state status direction) = not_for_the_server _ refl refl
  receive-Received message_game_end = not_for_the_server _ refl refl
