-- ===== src/Connection/Session.antt =====
-- A client over a socket for as long as a game is played: the send thread of
-- `server/client_connection.c`, and the loop of `client/socket_client.c` at the other end.
use snake_posix.Common.{
  ℕ, ◌<◌, ◌≡◌, refl, sym, ap, ◌∙◌, subst, arith, Bool, true, false, ltb, if◌then◌else◌, List, [],
  ◌∷◌, ◌++◌,
}
use snake_posix.Common.{append-nil}
use snake_posix.Common.Outcome.{ok, Ensures-ok}
use snake_posix.Rng.{Rng}
use snake_posix.Geometry.{Coordinates}
use snake_posix.Map.{Map}
use snake_posix.Map.Moves.{Inside}
use snake_posix.Map.Neighbors.{tile_at}
use snake_posix.Changelog.Replay.{entries, replay_sizes}
use snake_posix.Player.{Player}
use snake_posix.Socket.Message.{message_connected, socket_message_init_map}
use snake_posix.Socket.View.{deserialize_to_map_sizes, deserialize_to_map-init_map}
use snake_posix.Client.{
  SocketClient, client_connecting, client_playing, client_receive, client_run, is_running,
}
use snake_posix.Connection.{Wake, send_loop, send_thread_messages, tick_messages}
use snake_posix.Connection.View.{run-tick_messages, run_step, server_tick-client_run}
use snake_posix.Server.Turn.{Server, server_tick}
use snake_posix.Server.Passed.{Ready}
use snake_posix.Server.Tick.{server_tick-replay}
use snake_posix.Connection.Playing.{client_run-append, tick_messages-playing}

-- The client plays and shows the board.
abbrev pub Shows : SocketClient → Server → Type 0
Shows k s =
    (k.state ≡ client_playing)
    × (k.map.width ≡ s.map.width)
    × (k.map.height ≡ s.map.height)
    × ((c : Coordinates) → Inside s.map c → tile_at k.map c ≡ tile_at s.map c)

-- A game as the send thread sees it. Between ticks the clients do what keeps the game ready and the
-- board as it is. The thread wakes after one tick, and copies the changelog of that tick before the
-- next, or has missed some, and copies the board. No lock of the source holds the next tick back while
-- the thread sends the state of its player, so the first case is an assumption on the timing.
pub data Game (rng : Rng) : Server → List Wake → Server → Type 0 where
  over : (s : Server) → Game rng s [] s
  one_tick :
      (s asked t u : Server) (running : Bool) (now : Player) (wakes : List Wake)
      → asked.map ≡ s.map
      → Ready asked
      → server_tick rng asked ≡ ok (t, running)
      → Game rng t wakes u
      → Game rng s
          (record {
            ticks_passed = 1;
            player_state = now;
            map = t.map;
            changelog = t.changelog;
            stops = false;
            delivers = true;
          }
            ∷ wakes)
          u
  some_ticks :
      (s t u : Server) (ticks : ℕ) (now : Player) (wakes : List Wake)
      → 1 < ticks
      → Game rng t wakes u
      → Game rng s
          (record {
            ticks_passed = ticks;
            player_state = now;
            map = t.map;
            changelog = t.changelog;
            stops = false;
            delivers = true;
          }
            ∷ wakes)
          u

module _ (rng : Rng) where
  one_tick-Shows :
      (k : SocketClient) (first : Bool) (last now : Player) (s asked t : Server) (running : Bool)
      → Shows k s
      → asked.map ≡ s.map
      → Ready asked
      → server_tick rng asked ≡ ok (t, running)
      → Shows (client_run k (tick_messages first last now 1 t.map t.changelog)) t
  one_tick-Shows k first last now s asked t running (playing, wide, tall, agree) same ready ticked =
      let (width, height, _) =
        Ensures-ok (server_tick rng asked) _ (t, running) ticked
          (server_tick-replay rng asked ready (record { row = 0; column = 0 })
            (ready.board.tall, ready.board.wide)) in
      let run = run-tick_messages k first last now 1 t.map t.changelog playing in
      let (keeps_height, keeps_width) = replay_sizes (entries t.changelog) k.map in
      (
        tick_messages-playing k first last now 1 t.map t.changelog playing,
        ap (λ (m : Map). m.width) run
            ∙ keeps_width
            ∙ wide
            ∙ sym (ap (λ (m : Map). m.width) same)
            ∙ sym width,
        ap (λ (m : Map). m.height) run
            ∙ keeps_height
            ∙ tall
            ∙ sym (ap (λ (m : Map). m.height) same)
            ∙ sym height,
        λ c inside.
            let here : Inside asked.map c =
              (omega (arith, height, inside), omega (arith, width, inside)) in
            let there : Inside s.map c = subst (λ m. Inside m c) same here in
            Ensures-ok (server_tick rng asked) _ (t, running) ticked
              (server_tick-client_run rng asked k first last now c ready playing here
                (agree c there ∙ ap (λ m. tile_at m c) (sym same))),
      )

  some_ticks-Shows :
      (k : SocketClient) (first : Bool) (last now : Player) (ticks : ℕ) (s t : Server)
      → Shows k s
      → 1 < ticks
      → Shows (client_run k (tick_messages first last now ticks t.map t.changelog)) t
  some_ticks-Shows k first last now ticks s t (playing, wide, tall, agree) missed =
      let e : ltb 1 ticks ≡ true = ground arith in
      let run = run-tick_messages k first last now ticks t.map t.changelog playing in
      let (new_width, new_height) = deserialize_to_map_sizes t.map k.map in
      (
        tick_messages-playing k first last now ticks t.map t.changelog playing,
        ap (λ (m : Map). m.width) run ∙ rw e new_width,
        ap (λ (m : Map). m.height) run ∙ rw e new_height,
        λ c inside.
            ap (λ m. tile_at m c) run ∙ rw e (deserialize_to_map-init_map t.map k.map c inside).0,
      )

  -- The loop of the send thread shows the client each board, up to the last.
  pub send_loop-Shows :
      (k : SocketClient) (first : Bool) (last : Player) (s u : Server) (wakes : List Wake)
      → Shows k s
      → Game rng s wakes u
      → Shows (client_run k (send_loop first last wakes)) u
  unfolding send_loop client_run
  send_loop-Shows k first last s u wakes shows (over v) = shows
  send_loop-Shows k first last s u wakes shows
        (one_tick v asked t w running now later same ready ticked game) =
      subst (λ k'. Shows k' u)
        (sym (
          client_run-append k (tick_messages first last now 1 t.map t.changelog)
            (send_loop false now later)))
        (send_loop-Shows (client_run k (tick_messages first last now 1 t.map t.changelog)) false now
          t u later (one_tick-Shows k first last now s asked t running shows same ready ticked)
          game)
  send_loop-Shows k first last s u wakes shows (some_ticks v t w ticks now later missed game) =
      subst (λ k'. Shows k' u)
        (sym (
          client_run-append k (tick_messages first last now ticks t.map t.changelog)
            (send_loop false now later)))
        (send_loop-Shows (client_run k (tick_messages first last now ticks t.map t.changelog)) false
          now t u later (some_ticks-Shows k first last now ticks s t shows missed) game)

  -- The first two messages show the client the board.
  pub hello-Shows :
      (k : SocketClient) (s : Server)
      → Shows
          (client_receive (client_receive k message_connected) (socket_message_init_map s.map))
          s
  unfolding client_receive socket_message_init_map
  hello-Shows k s = (
    refl,
    (deserialize_to_map_sizes s.map k.map).0,
    (deserialize_to_map_sizes s.map k.map).1,
    λ c inside. (deserialize_to_map-init_map s.map k.map c inside).0,
  )

  pub send_thread-Shows :
      (k : SocketClient) (now : Player) (s u : Server) (wakes : List Wake)
      → k.state ≡ client_connecting
      → Game rng s wakes u
      → Shows (client_run k (send_thread_messages true s.map now wakes false)) u
  unfolding send_thread_messages client_run client_receive socket_message_init_map
  send_thread-Shows k now s u wakes connecting game =
      let loop = send_loop true now wakes in
      let hello = message_connected ∷ socket_message_init_map s.map ∷ [] in
      let start : SocketClient =
        client_receive (client_receive k message_connected) (socket_message_init_map s.map) in
      let started : client_run k hello ≡ start =
        ap
          (λ st.
            if is_running st
            then client_run (client_receive k message_connected)
                (socket_message_init_map s.map ∷ [])
            else k)
          connecting
        ∙ run_step (client_receive k message_connected) (socket_message_init_map s.map) [] refl in
      let whole : client_run k ((hello ++ loop) ++ []) ≡ client_run start loop =
        ap (client_run k) (append-nil (hello ++ loop))
        ∙ client_run-append k hello loop
        ∙ ap (λ k'. client_run k' loop) started in
      subst (λ k'. Shows k' u) (sym whole)
        (send_loop-Shows start true now s u wakes (hello-Shows k s) game)

  -- A client that connects while the game goes on, with any map, and that receives all that the send
  -- thread of its connection sends, plays and shows the tile of the server's board at a cell of it,
  -- after any number of ticks, of which the thread may miss some, as long as the messages can be sent
  -- and the game has not ended. Between ticks the state stays ready for a tick and keeps its board, and
  -- where the thread has missed no tick, it copies the changelog before the next one.
  pub client_run-send_thread_messages :
      (k : SocketClient) (now : Player) (s u : Server) (wakes : List Wake) (c : Coordinates)
      → k.state ≡ client_connecting
      → Game rng s wakes u
      → Inside u.map c
      → ((client_run k (send_thread_messages true s.map now wakes false)).state ≡ client_playing)
        × (tile_at (client_run k (send_thread_messages true s.map now wakes false)).map c
            ≡ tile_at u.map c)
  client_run-send_thread_messages k now s u wakes c connecting game inside =
      let (playing, _, _, agree) = send_thread-Shows k now s u wakes connecting game in
      (playing, agree c inside)
