-- ===== src/ShmClient/Same.antt =====
-- The keys of `client/shm_client.c` beside those of `client/socket_client.c`.
use snake_posix.Common.{
  ℕ, ◌≡◌, refl, ◌∙◌, inl, inr, Bool, true, false, ◌==◌, if◌then◌else◌, Bool-cases, Option, none,
  some,
}
use snake_posix.Geometry.{Direction, up, left, down, right, other, direction_eq}
use snake_posix.Player.{
  PlayerManager, PlayerStatus, player_playing, player_paused, player_dead, is_status,
  player_manager_set_player_direction, player_manager_pause, player_manager_unpause,
  player_manager_respawn,
}
use snake_posix.Socket.Message.{SocketMessage, message_direction}
use snake_posix.Client.{arrow_press, socket_client_press}
use snake_posix.Connection.{ClientConnection, player_id_not_registered, if_registered, receive}
use snake_posix.ShmClient.{
  ShmClient, Key, key_arrow, key_escape, key_pause, key_unpause, key_respawn, press,
  shm_client_on_arrow_press, shm_client_on_pause_press, shm_client_on_unpause_press,
  shm_client_on_respawn_press,
}

-- The players once the server has handled a message, if there is one.
abbrev pub delivered : ClientConnection → PlayerManager → Option SocketMessage → PlayerManager
delivered connection manager none = manager
delivered connection manager (some message) = (receive connection manager message).1

module _ (self : ShmClient) (connection : ClientConnection) (manager : PlayerManager)
    (registered : (connection.player_id == player_id_not_registered) ≡ false)
    (same : connection.player_id ≡ self.player_id) where
  registered_lem :
      (requested : ℕ → PlayerManager)
      → (if_registered connection manager (requested connection.player_id)).1
        ≡ requested self.player_id
  registered_lem requested = rw (registered, same) refl

  guard_lem :
      (seen is : PlayerStatus) (asked : PlayerStatus) (changed : PlayerManager)
      → seen ≡ is
      → (if is_status is asked then changed else manager) ≡ (
          if is_status seen asked
          then (if is_status is asked then changed else manager)
          else manager)
  guard_lem seen is asked changed e = elim (Bool-cases (is_status is asked)) [
    | inl b ↦ rw (e, b) refl
    | inr b ↦ rw (e, b) refl
  ]

  arrow_lem :
      (d : Direction) (blocked : Bool)
      → delivered connection manager (if blocked then none else some (message_direction d)) ≡ (
          if blocked then manager else player_manager_set_player_direction manager self.player_id d)
  unfolding receive
  arrow_lem d true = refl
  arrow_lem d false = registered_lem (λ id. player_manager_set_player_direction manager id d)

  -- Over a connection that has the client's player, and where the client last saw the status that the
  -- player has, a key of a client over a socket does to the players, once its message is handled, what
  -- the key does in shared memory.
  pub receive-press :
      (key : Key)
      → self.player_status ≡ (manager.players self.player_id).status
      → delivered connection manager (socket_client_press self.last_player_direction key)
        ≡ (press self manager key).1
  unfolding press socket_client_press arrow_press receive shm_client_on_arrow_press
      shm_client_on_pause_press shm_client_on_unpause_press shm_client_on_respawn_press
      player_manager_pause player_manager_unpause player_manager_respawn
  receive-press (key_arrow up) e = arrow_lem up (direction_eq self.last_player_direction down)
  receive-press (key_arrow left) e = arrow_lem left (direction_eq self.last_player_direction right)
  receive-press (key_arrow down) e = arrow_lem down (direction_eq self.last_player_direction up)
  receive-press (key_arrow right) e = arrow_lem right (direction_eq self.last_player_direction left)
  receive-press (key_arrow (other n)) e = refl
  receive-press key_escape e = refl
  receive-press key_pause e =
      registered_lem (λ id. player_manager_pause manager id)
      ∙ guard_lem self.player_status (manager.players self.player_id).status player_playing _ e
  receive-press key_unpause e =
      registered_lem (λ id. player_manager_unpause manager id)
      ∙ guard_lem self.player_status (manager.players self.player_id).status player_paused _ e
  receive-press key_respawn e =
      registered_lem (λ id. player_manager_respawn manager id)
      ∙ guard_lem self.player_status (manager.players self.player_id).status player_dead _ e
