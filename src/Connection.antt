-- ===== src/Connection.antt =====
-- `server/client_connection.c`: what the server does with a message of a client, and the messages
-- that it sends to a client at each tick. The two threads, and the shutdown of the one by the other,
-- are not here.
pub mod View
pub mod Receive
pub mod Playing
pub mod Session
pub mod Screen
pub mod Handler
use package.snake_posix.Common.{
  ℕ, zero, suc, ◌+◌, ◌-◌, ◌*◌, ◌/◌, ◌%◌, ◌^◌, ◌≤◌, ◌<◌, ◌≡◌, refl, sym, ap, ◌∙◌, subst, ◌≢◌, ◌↔◌,
  ◌⊎◌, inl, inr, arith, Bool, true, false, not, ◌&&◌, ◌||◌, ◌==◌, ltb, leb, if◌then◌else◌, if_intro,
  Bool-cases, ==-refl, ==→≡, ==→≢, Option, none, some, Option-cases, List, [], ◌∷◌, ◌++◌,
}
use package.snake_posix.Geometry.{Direction, direction_eq}
use package.snake_posix.Map.{Map}
use package.snake_posix.Changelog.{Change, Changelog, change_tile_state, syn_changelog_copy}
use package.snake_posix.Player.{
  Player, PlayerManager, PlayerStatus, is_status, player_manager_set_player_direction,
  player_manager_pause, player_manager_unpause, player_manager_respawn,
}
use package.snake_posix.Socket.Message.{
  SocketMessage, message_direction, message_disconnect, message_pause, message_unpause,
  message_respawn, message_tile_change, message_player_state, message_connected, message_game_end,
  message_game_full, socket_message_init_map,
}

abbrev pub player_id_not_registered : ℕ
player_id_not_registered = 42000

-- `shutdown_` and `player_id_` of `client_connection_t`.
pub record ClientConnection : Type 0 where
  pub shutdown : Bool
  pub player_id : ℕ

-- A request that a player's client may make, and only once the player is registered; the Boolean
-- says whether the loop goes on.
abbrev pub if_registered :
    ClientConnection → PlayerManager → PlayerManager → ClientConnection × PlayerManager × Bool
if_registered self manager requested =
    if self.player_id == player_id_not_registered
    then (record self { shutdown = true }, manager, false)
    else (self, requested, true)

-- The part of `client_connection_receive_thread_main` that handles a message.
unfoldable pub receive :
    ClientConnection → PlayerManager → SocketMessage → ClientConnection × PlayerManager × Bool
receive self manager (message_direction d) =
    if_registered self manager (player_manager_set_player_direction manager self.player_id d)
receive self manager message_pause =
    if_registered self manager (player_manager_pause manager self.player_id)
receive self manager message_unpause =
    if_registered self manager (player_manager_unpause manager self.player_id)
receive self manager message_respawn =
    if_registered self manager (player_manager_respawn manager self.player_id)
receive self manager _ = (record self { shutdown = true }, manager, false)

-- The messages of `client_connection_send_changelog`.
abbrev pub change_message : Change → SocketMessage
change_message (change_tile_state c t) = message_tile_change c.row c.column t

unfoldable pub change_messages : List Change → List SocketMessage
change_messages [] = []
change_messages (x ∷ xs) = change_message x ∷ change_messages xs

unfoldable pub send_changelog : Changelog → List SocketMessage
send_changelog changelog = elim (syn_changelog_copy changelog) [
  | none ↦ []
  | some changes ↦ change_messages changes
]

-- What the loop of `client_connection_send_thread_main` sends after a tick, where no send fails: the
-- state of the player if it is the first or has changed, and the map or the changelog.
unfoldable pub tick_messages : Bool → Player → Player → ℕ → Map → Changelog → List SocketMessage
tick_messages is_first_tick last_player_state player_state ticks_passed map changelog =
    (if is_first_tick
        || not (direction_eq player_state.direction last_player_state.direction)
        || not (is_status player_state.status last_player_state.status)
      then message_player_state player_state.status player_state.direction ∷ []
      else [])
    ++ (if ltb 1 ticks_passed then socket_message_init_map map ∷ [] else send_changelog changelog)

-- What the send thread finds when it has waited for a tick: how many have passed, the state of its
-- player, the board and the changelog, whether the loop is to be left, and whether all that it then
-- sends can be sent.
pub record Wake : Type 0 where
  pub ticks_passed : ℕ
  pub player_state : Player
  pub map : Map
  pub changelog : Changelog
  pub stops : Bool
  pub delivers : Bool

-- The loop of `client_connection_send_thread_main`: the messages that are sent, or tried. The last
-- state of the player is kept where it is not sent, which has the same direction and status.
unfoldable pub send_loop : Bool → Player → List Wake → List SocketMessage
send_loop is_first_tick last_player_state [] = []
send_loop is_first_tick last_player_state (wake ∷ wakes) =
    let rest = send_loop false wake.player_state wakes in
    if wake.stops
    then []
    else tick_messages is_first_tick last_player_state wake.player_state wake.ticks_passed wake.map
        wake.changelog
      ++ (if wake.delivers then rest else [])

-- The messages of `client_connection_send_thread_main`, where `registered` is whether the player
-- manager has had a place, and `map` the board once it has.
unfoldable pub send_thread_messages : Bool → Map → Player → List Wake → Bool → List SocketMessage
send_thread_messages registered map player_state wakes game_ended =
    if registered
    then (message_connected ∷ socket_message_init_map map ∷ [])
      ++ send_loop true player_state wakes
      ++ (if game_ended then message_game_end ∷ [] else [])
    else message_game_full ∷ []
