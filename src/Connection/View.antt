-- ===== src/Connection/View.antt =====
-- What a client shows after the messages of a tick.
use snake_posix.Common.{
  ℕ, ◌≡◌, refl, sym, ap, ◌∙◌, inl, inr, Bool, ◌==◌, ltb, if◌then◌else◌, if_intro, Bool-cases, ==→≡,
  List, [], ◌∷◌, ◌++◌,
}
use snake_posix.Common.Outcome.{Ensures, Ensures-mono}
use snake_posix.Rng.{Rng}
use snake_posix.Geometry.{Coordinates}
use snake_posix.Map.{Map, map_set_tile_state}
use snake_posix.Map.Moves.{Inside}
use snake_posix.Map.Neighbors.{tile_at}
use snake_posix.Changelog.{Change, Changelog, change_tile_state, syn_changelog_copy, first_changes}
use snake_posix.Changelog.Replay.{replay-agree, entries, replay}
use snake_posix.Player.{Player}
use snake_posix.Socket.Message.{
  SocketMessage, message_player_state, message_tile_change, socket_message_init_map,
  socket_message_deserialize_to_map,
}
use snake_posix.Client.{SocketClient, client_playing, client_receive, client_run, is_running}
use snake_posix.Connection.{change_messages, send_changelog, tick_messages}
use snake_posix.Server.Turn.{Server, server_tick}
use snake_posix.Server.Passed.{Ready}
use snake_posix.Server.Tick.{server_tick-replay}

pub run_step :
    (k : SocketClient) (m : SocketMessage) (ms : List SocketMessage)
    → k.state ≡ client_playing
    → client_run k (m ∷ ms) ≡ client_run (client_receive k m) ms
unfolding client_run
run_step k m ms e = ap (λ s. if is_running s then client_run (client_receive k m) ms else k) e

run_changes :
    (k : SocketClient) (l : List Change)
    → k.state ≡ client_playing
    → (client_run k (change_messages l)).map ≡ replay k.map l
unfolding client_run client_receive change_messages replay
run_changes k [] e = refl
run_changes k (change_tile_state c t ∷ xs) e =
    ap (λ (x : SocketClient). x.map)
      (run_step k (message_tile_change c.row c.column t) (change_messages xs) e)
    ∙ run_changes (record k { map = map_set_tile_state k.map c t }) xs e

-- The messages of a changelog are those of its entries, in order.
pub send_changelog_lem : (log : Changelog) → send_changelog log ≡ change_messages (entries log)
unfolding send_changelog syn_changelog_copy entries first_changes change_messages
send_changelog_lem log = elim (Bool-cases (log.size == 0)) [
  | inl z ↦
      rw (z, send_changelog)
        (ap (λ n. change_messages (first_changes n log.changes)) (sym (==→≡ log.size 0 z)))
  | inr z ↦ rw (z, send_changelog) refl
]

entries_lem :
    (k : SocketClient) (log : Changelog)
    → k.state ≡ client_playing
    → (client_run k (send_changelog log)).map ≡ replay k.map (entries log)
entries_lem k log e =
    ap (λ l. (client_run k l).map) (send_changelog_lem log) ∙ run_changes k (entries log) e

-- The part of the messages of a tick that shows the map, and what the map is then.
abbrev view : ℕ → Map → Changelog → List SocketMessage
view ticks map log = if ltb 1 ticks then socket_message_init_map map ∷ [] else send_changelog log

abbrev pub after : ℕ → Map → Changelog → Map → Map
after ticks map log shown =
    if ltb 1 ticks
    then socket_message_deserialize_to_map (socket_message_init_map map) shown
    else replay shown (entries log)

map_lem :
    (k : SocketClient) (map : Map)
    → k.state ≡ client_playing
    → (client_run k (socket_message_init_map map ∷ [])).map
      ≡ socket_message_deserialize_to_map (socket_message_init_map map) k.map
unfolding client_run client_receive socket_message_init_map
map_lem k map e = ap (λ (x : SocketClient). x.map) (run_step k (socket_message_init_map map) [] e)

view_lem :
    (k : SocketClient) (ticks : ℕ) (map : Map) (log : Changelog)
    → k.state ≡ client_playing
    → (client_run k (view ticks map log)).map ≡ after ticks map log k.map
view_lem k ticks map log e = elim (Bool-cases (ltb 1 ticks)) [
  | inl t ↦ rw t (map_lem k map e)
  | inr t ↦ rw t (entries_lem k log e)
]

-- A client that plays has, after the messages of a tick, the map of the server as a message of a map
-- gives it, where it has missed a tick, and else its own map with the changelog applied.
pub run-tick_messages :
    (k : SocketClient) (first : Bool) (last now : Player) (ticks : ℕ) (map : Map) (log : Changelog)
    → k.state ≡ client_playing
    → (client_run k (tick_messages first last now ticks map log)).map ≡ after ticks map log k.map
unfolding tick_messages client_receive
run-tick_messages k first last now ticks map log e =
    if_intro (λ l. (client_run k (l ++ view ticks map log)).map ≡ after ticks map log k.map) _
      (message_player_state now.status now.direction ∷ []) []
      (λ c.
        ap (λ (x : SocketClient). x.map)
          (run_step k (message_player_state now.status now.direction) (view ticks map log) e)
        ∙ view_lem (record k { last_status = now.status; last_direction = now.direction }) ticks map
            log e)
      (λ c. view_lem k ticks map log e)

-- From a state that is ready for a tick, a client that plays and shows the tile of the server's board
-- at a cell of it shows the tile of the new board there after it has received the messages of the
-- tick, whether or not the state of its player is among them, unless the tick ends by `exit`.
pub server_tick-client_run :
    (rng : Rng) (self : Server) (k : SocketClient) (first : Bool) (last now : Player)
    (c : Coordinates)
    → Ready self
    → k.state ≡ client_playing
    → Inside self.map c
    → tile_at k.map c ≡ tile_at self.map c
    → Ensures (server_tick rng self) (λ r.
      tile_at (client_run k (tick_messages first last now 1 r.0.map r.0.changelog)).map c
      ≡ tile_at r.0.map c)
server_tick-client_run rng self k first last now c ready playing inside agree =
    Ensures-mono (server_tick rng self) _ _ (server_tick-replay rng self ready c inside)
      (λ r (_, _, e).
        ap (λ m. tile_at m c) (run-tick_messages k first last now 1 r.0.map r.0.changelog playing)
        ∙ replay-agree (entries r.0.changelog) k.map self.map c agree
        ∙ e)
