-- ===== src/Renderer/Commands.antt =====
-- What the commands in the queue of `client/renderer/renderer.c` do to one cell of the board.
use snake_posix.Common.{
  ℕ, ◌≡◌, refl, sym, ap, ◌∙◌, subst, ◌⊎◌, inl, inr, Bool, true, false, ◌&&◌, ◌==◌, if◌then◌else◌,
  Bool-cases, List, [], ◌∷◌, ◌++◌,
}
use snake_posix.Geometry.{Coordinates}
use snake_posix.Map.{Map, MapTile, map_set_tile_state}
use snake_posix.Changelog.{Change, change_tile_state}
use snake_posix.Changelog.Replay.{replay}
use snake_posix.Termbox.{Cell}
use snake_posix.Renderer.{tile_cell, RendererCommand, command_redraw, command_update}

-- Only the first command may be a redraw.
abbrev pub Updates : List RendererCommand → Type 0
Updates [] = Unit
Updates (command_redraw map status ∷ l) = ⊥
Updates (command_update row column tile ∷ l) = Updates l

abbrev pub Ordered : List RendererCommand → Type 0
Ordered [] = Unit
Ordered (command_redraw map status ∷ l) = Updates l
Ordered (command_update row column tile ∷ l) = Updates l

pub Updates-Ordered : (l : List RendererCommand) → Updates l → Ordered l
Updates-Ordered [] h = tt
Updates-Ordered (command_redraw map status ∷ l) h = absurd h
Updates-Ordered (command_update row column tile ∷ l) h = h

Updates-append :
    (l : List RendererCommand) (row column : ℕ) (tile : MapTile)
    → Updates l
    → Updates (l ++ command_update row column tile ∷ [])
Updates-append [] row column tile h = tt
Updates-append (command_redraw map status ∷ l) row column tile h = absurd h
Updates-append (command_update r c t ∷ l) row column tile h = Updates-append l row column tile h

pub Ordered-append :
    (l : List RendererCommand) (row column : ℕ) (tile : MapTile)
    → Ordered l
    → Ordered (l ++ command_update row column tile ∷ [])
Ordered-append [] row column tile h = tt
Ordered-append (command_redraw map status ∷ l) row column tile h =
    Updates-append l row column tile h
Ordered-append (command_update r c t ∷ l) row column tile h = Updates-append l row column tile h

-- The updates that a client asks for after changes to the board.
abbrev pub updates : List Change → List RendererCommand
updates [] = []
updates (change_tile_state c t ∷ l) = command_update c.row c.column t ∷ updates l

cell_if :
    (b : Bool) (t u : MapTile)
    → (if b then tile_cell t else tile_cell u) ≡ tile_cell (if b then t else u)
cell_if true t u = refl
cell_if false t u = refl

module _ (r c : ℕ) where
  -- The cell in row `r` and column `c` after the commands, where a redraw gives `now`.
  abbrev pub settled : Cell → List RendererCommand → Cell → Cell
  settled now [] v = v
  settled now (command_redraw map status ∷ l) v = settled now l now
  settled now (command_update row column tile ∷ l) v =
      settled now l (if r == row && c == column then tile_cell tile else v)

  pub settled-append :
      (now : Cell) (k l : List RendererCommand) (v : Cell)
      → settled now (k ++ l) v ≡ settled now l (settled now k v)
  settled-append now [] l v = refl
  settled-append now (command_redraw map status ∷ k) l v = settled-append now k l now
  settled-append now (command_update row column tile ∷ k) l v = settled-append now k l _

  -- A redraw before commands that lead to what is drawn changes nothing.
  pub settled-redraw :
      (now : Cell) (l : List RendererCommand) (v : Cell)
      → settled now l v ≡ now
      → settled now l now ≡ now
  settled-redraw now [] v e = refl
  settled-redraw now (command_redraw map status ∷ l) v e = e
  settled-redraw now (command_update row column tile ∷ l) v e =
      elim (Bool-cases (r == row && c == column)) [
        | inl h ↦ rw h (rw h at e)
        | inr h ↦ rw h (settled-redraw now l v (rw h at e))
      ]

  cell_hit :
      (q : Coordinates) (t : MapTile) (v w : Cell)
      → (r == q.row && c == q.column) ≡ true
      → (if r == q.row && c == q.column then tile_cell t else v)
        ≡ (if r == q.row && c == q.column then tile_cell t else w)
  cell_hit q t v w e = rw e refl

  cell_missed :
      (q : Coordinates) (t : MapTile) (v : Cell)
      → (r == q.row && c == q.column) ≡ false
      → (if r == q.row && c == q.column then tile_cell t else v) ≡ v
  cell_missed q t v e = rw e refl

  -- The updates for a list of changes set the cell, or leave it.
  updates_cases :
      (now : Cell) (l : List Change)
      → ((v w : Cell) → settled now (updates l) v ≡ settled now (updates l) w)
        ⊎ ((v : Cell) → settled now (updates l) v ≡ v)
  updates_cases now [] = inr (λ v. refl)
  updates_cases now (change_tile_state q t ∷ l) = elim (updates_cases now l) [
    | inl h ↦ inl (λ v w. h _ _)
    | inr h ↦ elim (Bool-cases (r == q.row && c == q.column)) [
      | inl e ↦ inl (λ v w. ap (settled now (updates l)) (cell_hit q t v w e))
      | inr e ↦ inr (λ v. h _ ∙ cell_missed q t v e)
    ]
  ]

  -- They make of the cell of a tile that of the tile after the changes.
  updates-replay :
      (now : Cell) (l : List Change) (m : Map)
      → settled now (updates l) (tile_cell (m.tiles r c)) ≡ tile_cell ((replay m l).tiles r c)
  unfolding replay map_set_tile_state
  updates-replay now [] m = refl
  updates-replay now (change_tile_state q t ∷ l) m =
      ap (settled now (updates l)) (cell_if (r == q.row && c == q.column) t (m.tiles r c))
      ∙ updates-replay now l (map_set_tile_state m q t)

  -- Where the commands lead to the board, the commands and the updates for changes lead to the board
  -- after the changes, which a redraw among the commands may see already.
  pub settled-updates :
      (l : List RendererCommand) (changes : List Change) (m : Map) (v : Cell)
      → settled (tile_cell (m.tiles r c)) l v ≡ tile_cell (m.tiles r c)
      → let now = tile_cell ((replay m changes).tiles r c) in
        settled now (updates changes) (settled now l v) ≡ now
  settled-updates l changes m v e =
      let now = tile_cell ((replay m changes).tiles r c) in
      elim (updates_cases now changes) [
        | inl h ↦ h _ _ ∙ updates-replay now changes m
        | inr h ↦
            let same : tile_cell (m.tiles r c) ≡ now =
              sym (h (tile_cell (m.tiles r c))) ∙ updates-replay now changes m in
            h (settled now l v) ∙ subst (λ n. settled n l v ≡ n) same e
      ]
