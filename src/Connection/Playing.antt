-- ===== src/Connection/Playing.antt =====
-- The loop of `client/socket_client.c` while it plays.
use snake_posix.Common.{
  ℕ, ◌≡◌, refl, sym, ap, ◌∙◌, inl, inr, Bool, false, ltb, if◌then◌else◌, if_intro, Bool-cases, List,
  [], ◌∷◌, ◌++◌,
}
use snake_posix.Map.{Map, map_set_tile_state}
use snake_posix.Changelog.{Change, Changelog, change_tile_state}
use snake_posix.Changelog.Replay.{entries}
use snake_posix.Player.{Player}
use snake_posix.Socket.Message.{
  SocketMessage, message_player_state, message_tile_change, socket_message_init_map,
}
use snake_posix.Client.{SocketClient, client_playing, client_receive, client_run, is_running}
use snake_posix.Connection.{tick_messages, change_messages, send_changelog}
use snake_posix.Connection.View.{send_changelog_lem, run_step}

pub client_run-append :
    (k : SocketClient) (xs ys : List SocketMessage)
    → client_run k (xs ++ ys) ≡ client_run (client_run k xs) ys
unfolding client_run
client_run-append k [] ys = refl
client_run-append k (x ∷ xs) ys = elim (Bool-cases (is_running k.state)) [
  | inl e ↦ rw (e, client_run) (client_run-append (client_receive k x) xs ys)
  | inr e ↦ rw (e, client_run) (sym (stopped k ys e))
]
  where
    stopped :
        (k : SocketClient) (l : List SocketMessage)
        → is_running k.state ≡ false
        → client_run k l ≡ k
    stopped k [] e = refl
    stopped k (x ∷ l) e = rw (e, client_run) refl

-- The messages of a tick leave the client playing.
changes-playing :
    (k : SocketClient) (l : List Change)
    → k.state ≡ client_playing
    → (client_run k (change_messages l)).state ≡ client_playing
unfolding client_run client_receive change_messages
changes-playing k [] e = e
changes-playing k (change_tile_state c t ∷ l) e =
    ap (λ (x : SocketClient). x.state)
      (run_step k (message_tile_change c.row c.column t) (change_messages l) e)
    ∙ changes-playing (record k { map = map_set_tile_state k.map c t }) l e

view-playing :
    (k : SocketClient) (ticks : ℕ) (map : Map) (log : Changelog)
    → k.state ≡ client_playing
    → (client_run k
        (if ltb 1 ticks then socket_message_init_map map ∷ [] else send_changelog log)).state
      ≡ client_playing
unfolding client_run client_receive socket_message_init_map
view-playing k ticks map log e = elim (Bool-cases (ltb 1 ticks)) [
  | inl t ↦
      rw t (ap (λ (x : SocketClient). x.state) (run_step k (socket_message_init_map map) [] e) ∙ e)
  | inr t ↦ rw t (
      ap (λ l. (client_run k l).state) (send_changelog_lem log) ∙ changes-playing k (entries log) e)
]

pub tick_messages-playing :
    (k : SocketClient) (first : Bool) (last now : Player) (ticks : ℕ) (map : Map) (log : Changelog)
    → k.state ≡ client_playing
    → (client_run k (tick_messages first last now ticks map log)).state ≡ client_playing
unfolding tick_messages client_receive
tick_messages-playing k first last now ticks map log e =
    if_intro
      (λ l.
        (client_run k (
          l
          ++ (if ltb 1 ticks then socket_message_init_map map ∷ [] else send_changelog log))).state
        ≡ client_playing)
      _ (message_player_state now.status now.direction ∷ []) []
      (λ c.
        ap (λ (x : SocketClient). x.state)
          (run_step k (message_player_state now.status now.direction) _ e)
        ∙ view-playing (record k { last_status = now.status; last_direction = now.direction }) ticks
            map log e)
      (λ c. view-playing k ticks map log e)
