-- ===== src/Renderer/Idle.antt =====
-- What is on the screen once the thread of `client/renderer/renderer.c` has nothing left to do, and
-- that it gets there.
use snake_posix.Common.{
  ℕ, suc, ◌+◌, ◌<◌, ◌≡◌, refl, sym, ap, ◌∙◌, subst, arith, true, List, [], ◌∷◌,
}
use snake_posix.Common.{length}
use snake_posix.Common.Outcome.{Returns-ok}
use snake_posix.Queue.{Queue, queue_is_empty}
use snake_posix.Queue.Refine.{Holds, Holds-unique, free_address, queue_is_empty-Holds}
use snake_posix.Termbox.{Termbox}
use snake_posix.Renderer.{
  tile_cell, RendererCommand, command_redraw, command_update, renderer_round,
}
use snake_posix.Renderer.Screen.{TermboxLaws, tile_of, Visible}
use snake_posix.Renderer.Commands.{settled}
use snake_posix.Renderer.Round.{left_over, renderer_round-Round}
use snake_posix.Renderer.Display.{
  Fresh, Enough, send, Display, Work, sent, drawn, works, Reachable, later,
}
use snake_posix.Renderer.Settles.{Settles, Reachable-Shown, send-Holds}

module _ (tb : Termbox) where
  -- Nothing is to be sent, and the queue is empty.
  abbrev pub Idle : Display tb → Type 0
  Idle s = (s.pending ≡ []) × (queue_is_empty s.renderer.queue ≡ true)

  -- Commands that are sent and rounds of the thread that draws, one after the other.
  pub data Works : Display tb → Display tb → Type 0 where
    rest : (s : Display tb) → Works s s
    and_then : {s t u : Display tb} → Work tb s t → Works t u → Works s u

module _ (tb : Termbox) (laws : TermboxLaws tb) where
  empty_queue :
      (queue : Queue RendererCommand) (l : List RendererCommand)
      → Holds queue l
      → queue_is_empty queue ≡ true
      → l ≡ []
  empty_queue queue [] holds e = refl
  empty_queue queue (x ∷ l) holds e =
      let e' = queue_is_empty-Holds queue (x ∷ l) holds in absurd (cc)

  -- In every state that the threads of a client reach, whatever their order, in which no command is
  -- to be sent and the queue is empty, the screen shows each tile of the board that it has room for.
  pub Reachable-shown :
      (s : Display tb) (r c : ℕ)
      → Reachable tb laws s
      → Idle tb s
      → r < s.map.height
      → c < s.map.width
      → Visible tb laws r c
      → laws.shown s.renderer.screen (c + 1) (r + 1) ≡ tile_cell (s.map.tiles r c)
  Reachable-shown s r c reached (sent_all, empty) lr lc visible =
      let (queued, h) = Reachable-Shown tb laws s reached in
      let none_queued = empty_queue s.renderer.queue queued h.holds empty in
      let now = tile_cell (s.map.tiles r c) in
      let shown = tile_of tb laws s.renderer.screen r c in
      h.presented (c + 1) (r + 1)
      ∙ subst (λ p. settled r c now p shown ≡ now) sent_all
          (subst (λ q. settled r c now s.pending (settled r c now q shown) ≡ now) none_queued
            (h.leads r c lr lc visible))

  queue-Fresh :
      (queue : Queue RendererCommand) (l : List RendererCommand) (x : RendererCommand)
      → Holds queue l
      → (p : ℕ) × Fresh queue x p
  queue-Fresh queue l (command_redraw map status) holds = (0, tt)
  queue-Fresh queue l (command_update row column tile) holds = free_address queue l holds

  pub length-Enough :
      (queue : Queue RendererCommand) (l : List RendererCommand)
      → Holds queue l
      → Enough queue (length l)
  length-Enough queue l holds k holds' =
      let e = ap length (Holds-unique queue k l holds' holds) in omega (arith, e)

  -- What is pending is sent.
  pub send_all :
      (pending : List RendererCommand) (s : Display tb)
      → Reachable tb laws s
      → s.pending ≡ pending
      → (t : Display tb) × Works tb s t × Reachable tb laws t × (t.pending ≡ []) × (t.map ≡ s.map)
  send_all [] s reached e = (s, rest s, reached, e, refl)
  send_all (x ∷ pending) s reached e =
      let (queued, h) = Reachable-Shown tb laws s reached in
      let (node, fresh) = queue-Fresh s.renderer.queue queued x h.holds in
      let enough = length-Enough s.renderer.queue queued h.holds in
      let (r, ran, done) =
        Returns-ok (send tb (length queued) node s.renderer x) _ (
          send-Holds tb laws (length queued) node s.renderer x queued h.holds (omega arith)
            fresh) in
      let step = sent s x pending (length queued) node r e enough fresh ran in
      let (t, steps, reached', idle, same) =
        send_all pending (record s { renderer = r; pending = pending }) (later reached (works step))
          refl in
      (t, and_then step steps, reached', idle, same)

  -- A round on a queue with commands.
  round :
      (s : Display tb) (x : RendererCommand) (l : List RendererCommand)
      → Reachable tb laws s
      → Settles tb laws s (x ∷ l)
      → (t : Display tb) × Work tb s t
        × Holds t.renderer.queue (left_over (x ∷ l))
        × (t.pending ≡ s.pending)
        × (t.map ≡ s.map)
  round s x l reached h =
      let (r, ran, done) =
        Returns-ok (renderer_round tb (suc (length l)) (λ pointer. s.map) s.renderer) _ (
          renderer_round-Round tb laws (suc (length l)) s.map s.renderer x l h.holds h.ordered
            (omega arith)) in
      (
        record s { renderer = r },
        drawn s (suc (length l)) r (length-Enough s.renderer.queue (x ∷ l) h.holds) ran,
        done.holds,
        refl,
        refl,
      )

  pub Works-append : {s t u : Display tb} → Works tb s t → Works tb t u → Works tb s u
  Works-append (rest s) more = more
  Works-append (and_then step steps) more = and_then step (Works-append steps more)

  Holds-Settles :
      (s : Display tb) (l : List RendererCommand)
      → Reachable tb laws s
      → Holds s.renderer.queue l
      → Settles tb laws s l
  Holds-Settles s l reached holds =
      let (queued, h) = Reachable-Shown tb laws s reached in
      subst (λ k. Settles tb laws s k) (Holds-unique s.renderer.queue queued l h.holds holds) h

  abbrev Drained : Display tb → Type 0
  Drained s =
      (t : Display tb) × Works tb s t
      × Reachable tb laws t
      × (t.pending ≡ s.pending)
      × (queue_is_empty t.renderer.queue ≡ true)
      × (t.map ≡ s.map)

  -- At most two rounds empty the queue.
  drain :
      (l : List RendererCommand) (s : Display tb)
      → Reachable tb laws s
      → Settles tb laws s l
      → Drained s
  drain [] s reached h =
      (s, rest s, reached, refl, queue_is_empty-Holds s.renderer.queue [] h.holds, refl)
  drain (command_redraw map status ∷ l) s reached h =
      let (t, step, holds, same_pending, same) = round s (command_redraw map status) l reached h in
      let (u, steps, reached', still, empty, same') =
        drain l t (later reached (works step))
          (Holds-Settles t l (later reached (works step)) holds) in
      (u, and_then step steps, reached', still ∙ same_pending, empty, same' ∙ same)
  drain (command_update row column tile ∷ l) s reached h =
      let (t, step, holds, same_pending, same) =
        round s (command_update row column tile) l reached h in
      (
        t,
        and_then step (rest t),
        later reached (works step),
        same_pending,
        queue_is_empty-Holds t.renderer.queue [] holds,
        same,
      )

  -- The threads get to a state where nothing is left to do, with the same board.
  settle :
      (s : Display tb)
      → Reachable tb laws s
      → (t : Display tb) × Works tb s t × Reachable tb laws t × Idle tb t × (t.map ≡ s.map)
  settle s reached =
      let (t, steps, reached_t, idle, same) = send_all s.pending s reached refl in
      let (queued, h) = Reachable-Shown tb laws t reached_t in
      let (u, steps', reached_u, still, empty, same') = drain queued t reached_t h in
      (u, Works-append steps steps', reached_u, (still ∙ idle, empty), same' ∙ same)

  pub Works-Idle :
      (s : Display tb) → Reachable tb laws s → (t : Display tb) × Works tb s t × Idle tb t
  Works-Idle s reached =
      let (t, steps, reached_t, idle, same) = settle s reached in (t, steps, idle)

  -- From every state that the threads of a client reach, sending the commands that are to be sent and
  -- rounds of the thread that draws, none of which is undefined and each of which ends, lead to a state
  -- where no command is to be sent, the queue is empty, and the screen shows a tile of the board of the
  -- first state that it has room for.
  pub Reachable-Idle :
      (s : Display tb) (r c : ℕ)
      → Reachable tb laws s
      → r < s.map.height
      → c < s.map.width
      → Visible tb laws r c
      → (t : Display tb) × Works tb s t
        × Idle tb t
        × (laws.shown t.renderer.screen (c + 1) (r + 1) ≡ tile_cell (s.map.tiles r c))
  Reachable-Idle s r c reached lr lc visible =
      let (t, steps, reached_t, idle, board) = settle s reached in
      (
        t,
        steps,
        idle,
        Reachable-shown t r c reached_t idle (subst (λ m. r < m.height) (sym board) lr)
              (subst (λ m. c < m.width) (sym board) lc) visible
            ∙ ap (λ m. tile_cell (m.tiles r c)) board,
      )
