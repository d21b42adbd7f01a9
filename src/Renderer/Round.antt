-- ===== src/Renderer/Round.antt =====
-- A round of the renderer's thread, over the list of commands that the queue holds.
use snake_posix.Common.{ℕ, zero, suc, ◌+◌, ◌<◌, ◌≡◌, refl, sym, ap, ◌∙◌, arith, List, [], ◌∷◌}
use snake_posix.Common.{length}
use snake_posix.Common.Outcome.{Returns, Returns-mono, Returns->>=}
use snake_posix.Map.{Map, MapTile}
use snake_posix.Queue.{Queue, queue_pop}
use snake_posix.Queue.Refine.{Holds, queue_pop-Holds}
use snake_posix.Termbox.{Termbox, Cell}
use snake_posix.Renderer.{
  tile_cell, RendererCommand, command_redraw, command_update, renderer_update_tile, update_tiles,
  renderer_round, Renderer,
}
use snake_posix.Renderer.Screen.{
  TermboxLaws, tile_of, Visible, renderer_update_tile-tile_of, renderer_redraw_screen-tile_of,
  renderer_redraw_screen-shown,
}
use snake_posix.Renderer.Commands.{Updates, Ordered, settled}

-- The commands that a round handles, and those that it leaves.
abbrev pub handled : List RendererCommand → List RendererCommand
handled [] = []
handled (command_redraw map status ∷ l) = command_redraw map status ∷ []
handled (command_update row column tile ∷ l) = command_update row column tile ∷ l

abbrev pub left_over : List RendererCommand → List RendererCommand
left_over [] = []
left_over (command_redraw map status ∷ l) = l
left_over (command_update row column tile ∷ l) = []

pub settled-handled :
    (r c : ℕ) (now v : Cell) (l : List RendererCommand)
    → settled r c now (left_over l) (settled r c now (handled l) v) ≡ settled r c now l v
settled-handled r c now v [] = refl
settled-handled r c now v (command_redraw map status ∷ l) = refl
settled-handled r c now v (command_update row column tile ∷ l) = refl

module _ (tb : Termbox) (laws : TermboxLaws tb) where
  pub update_tiles-settled :
      (fuel row column : ℕ) (tile : MapTile) (queue : Queue RendererCommand)
      (l : List RendererCommand) (screen : tb.Screen)
      → Holds queue l
      → Updates l
      → length l < fuel
      → Returns (update_tiles tb fuel row column tile queue screen) (λ (left_, s).
        Holds left_ []
        × ((r c : ℕ) (now : Cell)
            → Visible tb laws r c
            → tile_of tb laws s r c
              ≡ settled r c now (command_update row column tile ∷ l) (tile_of tb laws screen r c)))
  unfolding update_tiles
  update_tiles-settled zero row column tile queue l screen holds only enough = absurd (omega arith)
  update_tiles-settled (suc fuel) row column tile queue [] screen holds only enough =
      Returns->>= (queue_pop queue) _ _ _ (queue_pop-Holds queue [] holds)
        (λ (next, rest) (e, holds'). rw e (
          holds',
          λ r c now visible.
              renderer_update_tile-tile_of tb laws screen row column tile r c visible,
        ))
  update_tiles-settled (suc fuel) row column tile queue (command_redraw map status ∷ l) screen holds
        only enough =
      absurd only
  update_tiles-settled (suc fuel) row column tile queue (command_update i j t ∷ l) screen holds only
        enough =
      Returns->>= (queue_pop queue) _ _ _ (queue_pop-Holds queue (command_update i j t ∷ l) holds)
        (λ (next, rest) (e, holds'). rw e (
          Returns-mono (update_tiles tb fuel i j t rest _) _ _
            (update_tiles-settled fuel i j t rest l (renderer_update_tile tb screen row column tile)
              holds' only (omega arith))
            (λ (left_, s) (done, cells). (
              done,
              λ r c now visible.
                  cells r c now visible
                  ∙ ap (settled r c now (command_update i j t ∷ l))
                      (renderer_update_tile-tile_of tb laws screen row column tile r c visible),
            ))))

  -- A round on a queue with commands handles the first of them, or all if they are updates; it ends,
  -- with no undefined read, and shows what it has drawn.
  pub record Round (map : Map) (l : List RendererCommand) (self result : Renderer tb) : Type 0 where
    pub holds : Holds result.queue (left_over l)
    pub cells :
        (r c : ℕ)
        → r < map.height
        → c < map.width
        → Visible tb laws r c
        → tile_of tb laws result.screen r c
          ≡ settled r c (tile_cell (map.tiles r c)) (handled l) (tile_of tb laws self.screen r c)
    pub presented : (x y : ℕ) → laws.shown result.screen x y ≡ laws.cell result.screen x y

  pub renderer_round-Round :
      (fuel : ℕ) (map : Map) (self : Renderer tb) (x : RendererCommand) (l : List RendererCommand)
      → Holds self.queue (x ∷ l)
      → Ordered (x ∷ l)
      → length l < fuel
      → Returns (renderer_round tb fuel (λ pointer. map) self) (Round map (x ∷ l) self)
  unfolding renderer_round
  renderer_round-Round fuel map self (command_redraw pointer status) l holds ordered enough =
      Returns->>= (queue_pop self.queue) _ _ _ (queue_pop-Holds self.queue _ holds)
        (λ (next, rest) (e, holds'). rw e (record {
          holds = holds';
          cells = λ r c lr lc visible.
              renderer_redraw_screen-tile_of tb laws map r c visible self.screen status lr lc;
          presented = renderer_redraw_screen-shown tb laws self.screen map status;
        }))
  renderer_round-Round fuel map self (command_update i j t) l holds ordered enough =
      Returns->>= (queue_pop self.queue) _ _ _ (queue_pop-Holds self.queue _ holds)
        (λ (next, rest) (e, holds'). rw e (
          Returns->>= (update_tiles tb fuel i j t rest self.screen) _ _ _
            (update_tiles-settled fuel i j t rest l self.screen holds' ordered enough)
            (λ (left_, s) (done, cells). record {
              holds = done;
              cells =
                  λ r c lr lc visible. laws.cell_present s (c + 1) (r + 1) ∙ cells r c _ visible;
              presented = λ x y. laws.shown_present s x y ∙ sym (laws.cell_present s x y);
            })))
