-- ===== src/Client/Drawn.antt =====
-- The loop of `client/socket_client.c` beside the thread of `client/renderer/renderer.c`.
use snake_posix.Common.{
  ℕ, true, false, ◌+◌, ◌<◌, ◌≡◌, refl, sym, ap, ◌∙◌, subst, inl, inr, if_intro, Bool-cases, List,
  [], ◌∷◌,
}
use snake_posix.Map.{Map, map_set_tile_state}
use snake_posix.Player.{is_status}
use snake_posix.Changelog.{change_tile_state}
use snake_posix.Changelog.Replay.{replay}
use snake_posix.Socket.Message.{
  SocketMessage, message_magic_bytes, message_game_full, message_connected, message_map,
  message_tile_change, message_player_state, message_direction, message_disconnect,
  message_game_end, message_pause, message_unpause, message_respawn,
}
use snake_posix.Termbox.{Termbox}
use snake_posix.Common.Outcome.{ok}
use snake_posix.Renderer.{Renderer, RendererCommand, command_redraw, command_update, tile_cell}
use snake_posix.Renderer.Screen.{TermboxLaws, Visible}
use snake_posix.Renderer.Display.{
  Display, Enough, send, Work, sent, drawn, Step, changed, replaced, resized, works, Reachable,
  later,
}
use snake_posix.Renderer.Idle.{Idle, Works, rest, and_then, send_all, Reachable-shown, Works-Idle}
use snake_posix.Client.{
  SocketClient, is_running, client_receive, client_run, client_receive_commands,
}

module _ (tb : Termbox) where
  abbrev pub asks : Display tb → Map → List RendererCommand → Display tb
  asks s map commands = record s { map = map; pending = commands }

  -- A client and the threads around its renderer, from a state over a list of messages to another. A
  -- message is handled once what the last one asks for is sent, while the client runs; in between, the
  -- commands are sent, the thread that draws makes its rounds, and the terminal is resized, in any
  -- order.
  pub data Follows : SocketClient → Display tb → List SocketMessage → Display tb → Type 0 where
    done : (k : SocketClient) (s : Display tb) → Follows k s [] s
    stopped :
        (k : SocketClient) (s : Display tb) (ms : List SocketMessage)
        → is_running k.state ≡ false
        → Follows k s ms s
    received :
        (k : SocketClient) (s t : Display tb) (m : SocketMessage) (ms : List SocketMessage)
        → is_running k.state ≡ true
        → s.pending ≡ []
        → Follows
            (client_receive k m)
            (asks s (client_receive k m).map (client_receive_commands k m))
            ms
            t
        → Follows k s (m ∷ ms) t
    worked :
        (k : SocketClient) (s t u : Display tb) (ms : List SocketMessage)
        → Work tb s t
        → Follows k t ms u
        → Follows k s ms u
    resizes :
        (k : SocketClient) (s u : Display tb) (ms : List SocketMessage) (fuel node : ℕ)
        (renderer : Renderer tb)
        → Enough s.renderer.queue fuel
        → send tb fuel node s.renderer (command_redraw 0 k.last_status) ≡ ok renderer
        → Follows k (record s { renderer = renderer }) ms u
        → Follows k s ms u

module _ (tb : Termbox) (laws : TermboxLaws tb) where
  module _ (s : Display tb) (reached : Reachable tb laws s) (idle : s.pending ≡ []) where
    Step-Reachable : {t : Display tb} → Step tb s t → Reachable tb laws t
    Step-Reachable step = later reached step

    -- No command, and the same board.
    stay-Reachable : (map : Map) → s.map ≡ map → Reachable tb laws (asks tb s map [])
    stay-Reachable map e =
        subst (λ m. Reachable tb laws (asks tb s m [])) e
          (subst (λ p. Reachable tb laws (asks tb s s.map p)) idle reached)

    -- What the client does with a message is a step of the threads around the renderer.
    receive-Reachable :
        (k : SocketClient) (m : SocketMessage)
        → s.map ≡ k.map
        → Reachable tb laws (asks tb s (client_receive k m).map (client_receive_commands k m))
    unfolding client_receive client_receive_commands replay
    receive-Reachable k (message_map map_data) e =
        Step-Reachable (replaced s _ 0 k.last_status idle)
    receive-Reachable k (message_tile_change row column tile) e =
        subst
          (λ m. Reachable tb laws (
            asks tb s (map_set_tile_state m (record { row = row; column = column }) tile)
              (command_update row column tile ∷ [])))
          e
          (Step-Reachable
            (changed s (change_tile_state (record { row = row; column = column }) tile ∷ []) idle))
    receive-Reachable k (message_player_state status direction) e =
        if_intro (λ commands. Reachable tb laws (asks tb s k.map commands))
          (is_status status k.last_status) [] (command_redraw 0 status ∷ [])
          (λ same. stay-Reachable k.map e) (λ new. Step-Reachable (replaced s k.map 0 status idle))
    receive-Reachable k (message_magic_bytes b0 b1 b2 b3) e = stay-Reachable k.map e
    receive-Reachable k message_game_full e = stay-Reachable k.map e
    receive-Reachable k message_connected e = stay-Reachable k.map e
    receive-Reachable k (message_direction d) e = stay-Reachable k.map e
    receive-Reachable k message_disconnect e = stay-Reachable k.map e
    receive-Reachable k message_game_end e = stay-Reachable k.map e
    receive-Reachable k message_pause e = stay-Reachable k.map e
    receive-Reachable k message_unpause e = stay-Reachable k.map e
    receive-Reachable k message_respawn e = stay-Reachable k.map e

  Work-map : (s t : Display tb) → Work tb s t → t.map ≡ s.map
  Work-map a t (sent s command left_ fuel node renderer next enough fresh e) = refl
  Work-map a t (drawn s fuel renderer enough e) = refl

  -- What the threads reach over a list of messages has the board of the client that has handled them.
  Follows-Reachable :
      (k : SocketClient) (s t : Display tb) (ms : List SocketMessage)
      → Follows tb k s ms t
      → Reachable tb laws s
      → s.map ≡ k.map
      → Reachable tb laws t × (t.map ≡ (client_run k ms).map)
  unfolding client_run
  Follows-Reachable i a t l (done k s) reached same = (reached, same)
  Follows-Reachable i a t [] (stopped k s l e) reached same = (reached, same)
  Follows-Reachable i a t (m ∷ ms) (stopped k s l e) reached same =
      rw (e, client_run) (reached, same)
  Follows-Reachable i a u l (received k s t m ms running idle next) reached same =
      rw (running, client_run)
        (Follows-Reachable (client_receive k m)
          (asks tb s (client_receive k m).map (client_receive_commands k m)) t ms next
          (receive-Reachable s reached idle k m same) refl)
  Follows-Reachable i a v l (worked k s t u ms work next) reached same =
      Follows-Reachable k t u ms next (later reached (works work)) (Work-map s t work ∙ same)
  Follows-Reachable i a v l (resizes k s u ms fuel node renderer enough e next) reached same =
      Follows-Reachable k (record s { renderer = renderer }) u ms next
        (later reached (resized s 0 k.last_status fuel node renderer enough e)) same

  -- A client handles a list of messages, while, in any order, what it asks for is sent, the thread that
  -- draws makes its rounds, and the terminal is resized. If it begins where its board is the one that
  -- its threads draw, and where nothing is left to do afterwards, the screen shows a tile that it has
  -- room for of the board that the client has then.
  pub client_run-shown :
      (ms : List SocketMessage) (k : SocketClient) (s t : Display tb) (r c : ℕ)
      → Reachable tb laws s
      → s.map ≡ k.map
      → Follows tb k s ms t
      → Idle tb t
      → r < (client_run k ms).map.height
      → c < (client_run k ms).map.width
      → Visible tb laws r c
      → laws.shown t.renderer.screen (c + 1) (r + 1) ≡ tile_cell ((client_run k ms).map.tiles r c)
  client_run-shown ms k s t r c reached same follows idle lr lc visible =
      let (reached_t, board) = Follows-Reachable k s t ms follows reached same in
      Reachable-shown tb laws t r c reached_t idle (subst (λ m. r < m.height) (sym board) lr)
        (subst (λ m. c < m.width) (sym board) lc) visible
      ∙ ap (λ m. tile_cell (m.tiles r c)) board

  Works-Follows :
      (k : SocketClient) (s t u : Display tb) (ms : List SocketMessage)
      → Works tb s t
      → Follows tb k t ms u
      → Follows tb k s ms u
  Works-Follows k a t u ms (rest s) next = next
  Works-Follows k a t u ms (and_then {t = v} step steps) next =
      worked k a v u ms step (Works-Follows k v t u ms steps next)

  pub Follows-Idle :
      (ms : List SocketMessage) (k : SocketClient) (s : Display tb)
      → Reachable tb laws s
      → s.map ≡ k.map
      → (t : Display tb) × Follows tb k s ms t × Idle tb t
  Follows-Idle [] k s reached same =
      let (t, steps, idle) = Works-Idle tb laws s reached in
      (t, Works-Follows k s t t [] steps (done k t), idle)
  Follows-Idle (m ∷ ms) k s reached same =
      let (t, steps, reached_t, idle, board) = send_all tb laws s.pending s reached refl in
      elim (Bool-cases (is_running k.state)) [
        | inr e ↦
            let (u, more, idle_u) = Works-Idle tb laws s reached in
            (u, Works-Follows k s u u (m ∷ ms) more (stopped k u (m ∷ ms) e), idle_u)
        | inl running ↦
            let asked = asks tb t (client_receive k m).map (client_receive_commands k m) in
            let (u, follows, idle_u) =
              Follows-Idle ms (client_receive k m) asked
                (receive-Reachable t reached_t idle k m (board ∙ same)) refl in
            (
              u,
              Works-Follows k s t u (m ∷ ms) steps (received k t u m ms running idle follows),
              idle_u,
            )
      ]
