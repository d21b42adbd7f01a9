-- ===== src/Connection/Screen.antt =====
-- From the game state of `server/server.c` over the send thread of `server/client_connection.c` and the
-- loop of `client/socket_client.c` to what `client/renderer/renderer.c` draws.
use snake_posix.Common.{ℕ, ◌+◌, ◌<◌, ◌≡◌, refl, sym, ap, ◌∙◌, subst, true, none, List, [], ◌∷◌}
use snake_posix.Rng.{Rng}
use snake_posix.Player.{Player}
use snake_posix.Queue.{Queue, queue_init}
use snake_posix.Socket.Message.{message_connected, socket_message_init_map}
use snake_posix.Termbox.{Termbox}
use snake_posix.Renderer.{RendererCommand, command_redraw, tile_cell}
use snake_posix.Renderer.Screen.{TermboxLaws, Visible}
use snake_posix.Renderer.Display.{Display, started}
use snake_posix.Renderer.Idle.{Idle}
use snake_posix.Client.{SocketClient, client_receive}
use snake_posix.Client.Drawn.{Follows, client_run-shown}
use snake_posix.Connection.{Wake, send_loop}
use snake_posix.Connection.Session.{Game, hello-Shows, send_loop-Shows}
use snake_posix.Server.Turn.{Server}

-- The client once it has been told that it is connected, and the board.
abbrev pub greeted : SocketClient → Server → SocketClient
greeted k s = client_receive (client_receive k message_connected) (socket_message_init_map s.map)

module _ (tb : Termbox) where
  -- Its threads then: the redraw for the board is to be sent to a renderer with a new queue.
  abbrev pub first_display : SocketClient → Server → Queue RendererCommand → tb.Screen → Display tb
  first_display k s queue screen = record {
    renderer = record { queue = queue_init queue; screen = screen };
    map = (greeted k s).map;
    pending = command_redraw 0 k.last_status ∷ [];
  }

module _ (tb : Termbox) (laws : TermboxLaws tb) (rng : Rng) where
  -- After any number of ticks, of which the send thread may miss some, a client that has been told that
  -- it is connected, and the board, handles what the send thread sends, while, in any order, what it
  -- asks for is sent, the thread that draws makes its rounds, and the terminal is resized. Where
  -- nothing is left to do afterwards, the screen shows a tile of the server's board that it has room
  -- for. The heap of the queue is empty at first, and the screen shows what it has. Between ticks the
  -- game stays ready for a tick and keeps its board, and where the send thread has missed no tick, it
  -- copies the changelog before the next one.
  pub send_loop-shown :
      (k : SocketClient) (now : Player) (s u : Server) (wakes : List Wake)
      (queue : Queue RendererCommand) (screen : tb.Screen) (t : Display tb) (r c : ℕ)
      → Game rng s wakes u
      → ((p : ℕ) → queue.nodes p ≡ none)
      → ((x y : ℕ) → laws.shown screen x y ≡ laws.cell screen x y)
      → Follows tb (greeted k s) (first_display tb k s queue screen) (send_loop true now wakes) t
      → Idle tb t
      → r < u.map.height
      → c < u.map.width
      → Visible tb laws r c
      → laws.shown t.renderer.screen (c + 1) (r + 1) ≡ tile_cell (u.map.tiles r c)
  send_loop-shown k now s u wakes queue screen t r c game free presented follows idle lr lc
        visible =
      let loop = send_loop true now wakes in
      let (_, wide, tall, agree) =
        send_loop-Shows rng (greeted k s) true now s u wakes (hello-Shows rng k s) game in
      let d = first_display tb k s queue screen in
      let reached = started queue screen (greeted k s).map 0 k.last_status free presented in
      client_run-shown tb laws loop (greeted k s) d t r c reached refl follows idle
        (subst (λ n. r < n) (sym tall) lr) (subst (λ n. c < n) (sym wide) lc) visible
      ∙ ap tile_cell (agree (record { row = r; column = c }) (lr, lc))
