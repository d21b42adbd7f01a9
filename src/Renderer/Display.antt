-- ===== src/Renderer/Display.antt =====
-- The threads of a client around `client/renderer/renderer.c`: the thread that writes the board and
-- asks for what is to be drawn, the thread of the input, which asks for a redraw where the terminal is
-- resized, and the thread that draws. Each step holds the mutex that the source holds over it.
use snake_posix.Common.{ℕ, ◌≤◌, ◌≡◌, none, List, [], ◌∷◌, ◌++◌}
use snake_posix.Common.{length}
use snake_posix.Common.Outcome.{Outcome, ok}
use snake_posix.Map.{Map}
use snake_posix.Player.{PlayerStatus}
use snake_posix.Changelog.{Change}
use snake_posix.Changelog.Replay.{replay}
use snake_posix.Queue.{Queue, queue_init}
use snake_posix.Queue.Refine.{Holds}
use snake_posix.Termbox.{Termbox}
use snake_posix.Renderer.{
  RendererCommand, command_redraw, command_update, renderer_round, renderer_redraw, renderer_update,
  Renderer,
}
use snake_posix.Renderer.Screen.{TermboxLaws}
use snake_posix.Renderer.Commands.{updates}

-- The queue after a command.
abbrev pub queued_after : List RendererCommand → RendererCommand → List RendererCommand
queued_after l (command_redraw map status) = command_redraw map status ∷ []
queued_after l (command_update row column tile) = l ++ command_update row column tile ∷ []

-- A redraw frees the nodes of the queue before it allocates its own.
abbrev pub Fresh : Queue RendererCommand → RendererCommand → ℕ → Type 0
Fresh queue (command_redraw map status) node = Unit
Fresh queue (command_update row column tile) node = queue.nodes node ≡ none

-- The fuel is enough for every command in the queue.
abbrev pub Enough : Queue RendererCommand → ℕ → Type 0
Enough queue fuel = (l : List RendererCommand) → Holds queue l → length l ≤ fuel

module _ (tb : Termbox) where
  abbrev pub send : ℕ → ℕ → Renderer tb → RendererCommand → Outcome (Renderer tb)
  send fuel node self (command_redraw map status) = renderer_redraw tb fuel node self map status
  send fuel node self (command_update row column tile) =
      renderer_update tb node self row column tile

  -- The renderer, the board of the client, and the commands that the thread which has written the
  -- board has still to send.
  pub record Display : Type 0 where
    pub renderer : Renderer tb
    pub map : Map
    pub pending : List RendererCommand

  -- What follows on a change of the board: a command is sent, or the thread that draws makes a round.
  pub data Work : Display → Display → Type 0 where
    sent :
        (s : Display) (command : RendererCommand) (rest : List RendererCommand) (fuel node : ℕ)
        (renderer : Renderer tb)
        → s.pending ≡ command ∷ rest
        → Enough s.renderer.queue fuel
        → Fresh s.renderer.queue command node
        → send fuel node s.renderer command ≡ ok renderer
        → Work s (record s { renderer = renderer; pending = rest })
    drawn :
        (s : Display) (fuel : ℕ) (renderer : Renderer tb)
        → Enough s.renderer.queue fuel
        → renderer_round tb fuel (λ pointer. s.map) s.renderer ≡ ok renderer
        → Work s (record s { renderer = renderer })

  pub data Step : Display → Display → Type 0 where
    -- The board has changed tile by tile, and an update is to be sent for each.
    changed :
        (s : Display) (changes : List Change)
        → s.pending ≡ []
        → Step s (record s { map = replay s.map changes; pending = updates changes })
    -- The board is another, or the status is, and a redraw is to be sent.
    replaced :
        (s : Display) (map : Map) (pointer : ℕ) (status : PlayerStatus)
        → s.pending ≡ []
        → Step s (record s { map = map; pending = command_redraw pointer status ∷ [] })
    resized :
        (s : Display) (pointer : ℕ) (status : PlayerStatus) (fuel node : ℕ) (renderer : Renderer tb)
        → Enough s.renderer.queue fuel
        → send fuel node s.renderer (command_redraw pointer status) ≡ ok renderer
        → Step s (record s { renderer = renderer })
    works : {s t : Display} → Work s t → Step s t

module _ (tb : Termbox) (laws : TermboxLaws tb) where
  -- A start is where the first redraw is to be sent, on a screen that shows what it has.
  pub data Reachable : Display tb → Type 0 where
    started :
        (queue : Queue RendererCommand) (screen : tb.Screen) (map : Map) (pointer : ℕ)
        (status : PlayerStatus)
        → ((p : ℕ) → queue.nodes p ≡ none)
        → ((x y : ℕ) → laws.shown screen x y ≡ laws.cell screen x y)
        → Reachable (record {
          renderer = record { queue = queue_init queue; screen = screen };
          map = map;
          pending = command_redraw pointer status ∷ [];
        })
    later : {s t : Display tb} → Reachable s → Step tb s t → Reachable t
