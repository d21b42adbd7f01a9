-- ===== src/Renderer/Settles.antt =====
-- Whatever the threads around `client/renderer/renderer.c` do, in any order.
use snake_posix.Common.{ℕ, ◌≤◌, ◌<◌, ◌≡◌, refl, ap, ◌∙◌, subst, arith, List, [], ◌∷◌}
use snake_posix.Common.{length}
use snake_posix.Common.Outcome.{Outcome, ok, undefined, Returns, Returns->>=, ◌>>=◌}
use snake_posix.Map.{Map}
use snake_posix.Player.{PlayerStatus}
use snake_posix.Changelog.{Change}
use snake_posix.Changelog.Replay.{replay, replay_sizes}
use snake_posix.Queue.{queue_push, queue_clear}
use snake_posix.Queue.Refine.{
  Holds, queue_pop-empty, free-Holds, queue_push-Holds, queue_clear-Holds, queue_init-Holds,
}
use snake_posix.Termbox.{Termbox, Cell}
use snake_posix.Renderer.{
  tile_cell, RendererCommand, command_redraw, command_update, renderer_round, renderer_redraw,
  renderer_update, Renderer,
}
use snake_posix.Renderer.Screen.{TermboxLaws, tile_of, Visible}
use snake_posix.Renderer.Commands.{
  Ordered, Updates-Ordered, Ordered-append, updates, settled, settled-append, settled-redraw,
  settled-updates,
}
use snake_posix.Renderer.Round.{left_over, settled-handled, renderer_round-Round}
use snake_posix.Renderer.Display.{
  queued_after, Fresh, Enough, send, Display, changed, replaced, sent, resized, drawn, works,
  Reachable, started, later,
}

Ordered-left_over : (l : List RendererCommand) → Ordered l → Ordered (left_over l)
Ordered-left_over [] h = tt
Ordered-left_over (command_redraw map status ∷ l) h = Updates-Ordered l h
Ordered-left_over (command_update row column tile ∷ l) h = tt

Ordered-queued_after :
    (l : List RendererCommand) (x : RendererCommand) → Ordered l → Ordered (queued_after l x)
Ordered-queued_after l (command_redraw map status) h = tt
Ordered-queued_after l (command_update row column tile) h = Ordered-append l row column tile h

-- To send a command is to move it to the queue.
settled-queued_after :
    (r c : ℕ) (now : Cell) (l : List RendererCommand) (x : RendererCommand) (v : Cell)
    → settled r c now (queued_after l x) v ≡ settled r c now (x ∷ []) (settled r c now l v)
settled-queued_after r c now l (command_redraw map status) v = refl
settled-queued_after r c now l (command_update row column tile) v = settled-append r c now l _ v

settled-∷ :
    (r c : ℕ) (now : Cell) (l : List RendererCommand) (x : RendererCommand) (v : Cell)
    → settled r c now l (settled r c now (x ∷ []) v) ≡ settled r c now (x ∷ l) v
settled-∷ r c now l (command_redraw map status) v = refl
settled-∷ r c now l (command_update row column tile) v = refl

module _ (tb : Termbox) (laws : TermboxLaws tb) where
  abbrev now_at : Display tb → ℕ → ℕ → Cell
  now_at s r c = tile_cell (s.map.tiles r c)

  -- The commands in the queue, and then those to be sent, lead to the board.
  pub record Settles (s : Display tb) (queued : List RendererCommand) : Type 0 where
    pub holds : Holds s.renderer.queue queued
    pub ordered : Ordered queued
    pub leads :
        (r c : ℕ)
        → r < s.map.height
        → c < s.map.width
        → Visible tb laws r c
        → settled r c
            (now_at s r c)
            s.pending
            (settled r c (now_at s r c) queued (tile_of tb laws s.renderer.screen r c))
          ≡ now_at s r c
    pub presented : (x y : ℕ) → laws.shown s.renderer.screen x y ≡ laws.cell s.renderer.screen x y

  -- A command that is sent ends, and is in the queue.
  pub send-Holds :
      (fuel node : ℕ) (self : Renderer tb) (command : RendererCommand) (l : List RendererCommand)
      → Holds self.queue l
      → length l ≤ fuel
      → Fresh self.queue command node
      → Returns
          (send tb fuel node self command)
          (λ r. Holds r.queue (queued_after l command) × (r.screen ≡ self.screen))
  unfolding renderer_redraw renderer_update
  send-Holds fuel node self (command_redraw pointer status) l holds enough free =
      Returns->>= (queue_clear fuel self.queue >>= (λ q. queue_push node q _)) _ _ _
        (Returns->>= (queue_clear fuel self.queue) _ _ _
          (queue_clear-Holds fuel self.queue l holds enough)
          (λ q empty.
            queue_push-Holds q [] node (command_redraw pointer status) empty
              (free-Holds q node empty)))
        (λ q h. (h, refl))
  send-Holds fuel node self (command_update row column tile) l holds enough free =
      Returns->>= (queue_push node self.queue (command_update row column tile)) _ _ _
        (queue_push-Holds self.queue l node (command_update row column tile) holds free)
        (λ q h. (h, refl))

  ensured : {A : Type 0} (P : A → Type 0) (m : Outcome A) (a : A) → m ≡ ok a → Returns m P → P a
  ensured P m a e h = subst (λ n. Returns n P) e h

  -- The invariant of the threads.
  abbrev pub Shown : Display tb → Type 0
  Shown s = (queued : List RendererCommand) × Settles s queued

  changed-Shown :
      (s : Display tb) (changes : List Change)
      → s.pending ≡ []
      → Shown s
      → Shown (record s { map = replay s.map changes; pending = updates changes })
  changed-Shown s changes idle (queued, h) =
      let (same_height, same_width) = replay_sizes changes s.map in
      (
        queued,
        record {
          holds = h.holds;
          ordered = h.ordered;
          leads = λ r c lr lc visible.
              settled-updates r c queued changes s.map (tile_of tb laws s.renderer.screen r c) (
                subst
                  (λ p.
                    settled r c (now_at s r c) p
                      (settled r c (now_at s r c) queued (tile_of tb laws s.renderer.screen r c))
                    ≡ now_at s r c)
                  idle (h.leads r c (omega arith) (omega arith) visible));
          presented = h.presented;
        },
      )

  replaced-Shown :
      (s : Display tb) (map : Map) (pointer : ℕ) (status : PlayerStatus)
      → Shown s
      → Shown (record s { map = map; pending = command_redraw pointer status ∷ [] })
  replaced-Shown s map pointer status (queued, h) = (
    queued,
    record {
      holds = h.holds;
      ordered = h.ordered;
      leads = λ r c lr lc visible. refl;
      presented = h.presented;
    },
  )

  sent-Shown :
      (s : Display tb) (command : RendererCommand) (rest : List RendererCommand) (fuel node : ℕ)
      (renderer : Renderer tb)
      → s.pending ≡ command ∷ rest
      → Enough s.renderer.queue fuel
      → Fresh s.renderer.queue command node
      → send tb fuel node s.renderer command ≡ ok renderer
      → Shown s
      → Shown (record s { renderer = renderer; pending = rest })
  sent-Shown s command rest fuel node renderer next enough fresh e (queued, h) =
      let (holds, screen) =
        ensured _ _ renderer e
          (send-Holds fuel node s.renderer command queued h.holds (enough queued h.holds) fresh) in
      (
        queued_after queued command,
        record {
          holds = holds;
          ordered = Ordered-queued_after queued command h.ordered;
          leads = λ r c lr lc visible.
              let v = tile_of tb laws s.renderer.screen r c in
              let now = now_at s r c in
              rw screen (
                ap (settled r c now rest) (settled-queued_after r c now queued command v)
                ∙ settled-∷ r c now rest command (settled r c now queued v)
                ∙ subst (λ p. settled r c now p (settled r c now queued v) ≡ now) next
                    (h.leads r c lr lc visible));
          presented = λ x y. rw screen (h.presented x y);
        },
      )

  resized-Shown :
      (s : Display tb) (pointer : ℕ) (status : PlayerStatus) (fuel node : ℕ)
      (renderer : Renderer tb)
      → Enough s.renderer.queue fuel
      → send tb fuel node s.renderer (command_redraw pointer status) ≡ ok renderer
      → Shown s
      → Shown (record s { renderer = renderer })
  resized-Shown s pointer status fuel node renderer enough e (queued, h) =
      let (holds, screen) = ensured _ _ renderer e (
        send-Holds fuel node s.renderer (command_redraw pointer status) queued h.holds
          (enough queued h.holds) tt) in
      (
        command_redraw pointer status ∷ [],
        record {
          holds = holds;
          ordered = tt;
          leads = λ r c lr lc visible.
              settled-redraw r c (now_at s r c) s.pending _ (h.leads r c lr lc visible);
          presented = λ x y. rw screen (h.presented x y);
        },
      )

  drawn-Shown :
      (s : Display tb) (fuel : ℕ) (renderer : Renderer tb)
      → Enough s.renderer.queue fuel
      → renderer_round tb fuel (λ pointer. s.map) s.renderer ≡ ok renderer
      → Shown s
      → Shown (record s { renderer = renderer })
  unfolding renderer_round
  drawn-Shown s fuel renderer enough e ([], h) =
      let none_left : renderer_round tb fuel (λ pointer. s.map) s.renderer ≡ undefined =
        rw (queue_pop-empty s.renderer.queue h.holds, renderer_round) refl in
      absurd (cc)
  drawn-Shown s fuel renderer enough e (x ∷ l, h) =
      let round = ensured _ _ renderer e (
        renderer_round-Round tb laws fuel s.map s.renderer x l h.holds h.ordered
          (enough (x ∷ l) h.holds)) in
      (
        left_over (x ∷ l),
        record {
          holds = round.holds;
          ordered = Ordered-left_over (x ∷ l) h.ordered;
          leads = λ r c lr lc visible.
              let v = tile_of tb laws s.renderer.screen r c in
              let now = now_at s r c in
              ap (λ u. settled r c now s.pending (settled r c now (left_over (x ∷ l)) u))
                (round.cells r c lr lc visible)
              ∙ ap (settled r c now s.pending) (settled-handled r c now v (x ∷ l))
              ∙ h.leads r c lr lc visible;
          presented = round.presented;
        },
      )

  -- In every state that the threads reach, whatever their order, the commands in the queue and then
  -- those still to be sent lead from the screen to the board, at each tile that the screen has room
  -- for.
  pub Reachable-Shown : (s : Display tb) → Reachable tb laws s → Shown s
  Reachable-Shown s (started queue screen map pointer status free presented) = (
    [],
    record {
      holds = queue_init-Holds queue free;
      ordered = tt;
      leads = λ r c lr lc visible. refl;
      presented = presented;
    },
  )
  Reachable-Shown t (later before (changed s changes idle)) =
      changed-Shown s changes idle (Reachable-Shown s before)
  Reachable-Shown t (later before (replaced s map pointer status idle)) =
      replaced-Shown s map pointer status (Reachable-Shown s before)
  Reachable-Shown t
        (later before (works (sent s command rest fuel node renderer next enough fresh e))) =
      sent-Shown s command rest fuel node renderer next enough fresh e (Reachable-Shown s before)
  Reachable-Shown t (later before (resized s pointer status fuel node renderer enough e)) =
      resized-Shown s pointer status fuel node renderer enough e (Reachable-Shown s before)
  Reachable-Shown t (later before (works (drawn s fuel renderer enough e))) =
      drawn-Shown s fuel renderer enough e (Reachable-Shown s before)
