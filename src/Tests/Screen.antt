-- ===== src/Tests/Screen.antt =====
-- The queue and the renderer, on a screen of 80 columns and 24 rows that keeps its cells.
use snake_posix.Common.{
  ℕ, ◌+◌, ◌-◌, ◌<◌, ◌≡◌, refl, arith, false, ◌&&◌, ◌==◌, ltb, leb, if◌then◌else◌, none, some, [],
  ◌∷◌,
}
use snake_posix.Common.{Text, length, get_or}
use snake_posix.Common.Outcome.{Returns}
use snake_posix.Player.{player_playing}
use snake_posix.Termbox.{Termbox, Cell, color_default}
use snake_posix.Queue.{
  Queue, queue_is_empty, store, queue_init, queue_push, queue_pop, queue_clear, free_all, set_next,
}
use snake_posix.Queue.Linked.{store_ne}
use snake_posix.Queue.Refine.{Holds, queue_init-Holds}
use snake_posix.Queue.Operations.{push, perform, specified, perform-Holds}
use snake_posix.Renderer.{
  RendererCommand, command_redraw, tile_cell, renderer_redraw, renderer_round,
  renderer_redraw_screen,
}
use snake_posix.Renderer.Screen.{TermboxLaws}
use snake_posix.Renderer.Display.{Display, sent, drawn, works, Reachable, started, later}
use snake_posix.Renderer.Idle.{Idle, Works, length-Enough, Reachable-shown, Reachable-Idle}
use snake_posix.Tests.{snake_map}

pub record Cells : Type 0 where
  pub back : ℕ → ℕ → Cell
  pub front : ℕ → ℕ → Cell

abbrev plain_cell : ℕ → Cell
plain_cell c = record { character = c; foreground = color_default; background = color_default }

abbrev written : Cells → ℕ → ℕ → Text → ℕ → ℕ → Cell
written s x y text i j =
    if j == y && (leb x i && ltb i (x + length text))
    then plain_cell (get_or text (i - x) 32)
    else s.back i j

abbrev pub cells_80 : Termbox
cells_80 = record {
  Screen = Cells;
  tb_clear = λ s. record s { back = λ x y. plain_cell 32 };
  tb_present = λ s. record s { front = s.back };
  tb_set_cell = λ s x y v. record s { back = λ i j. if i == x && j == y then v else s.back i j };
  tb_print = λ s x y f b text. record s { back = written s x y text };
  tb_set_cursor = λ s x y. s;
  tb_hide_cursor = λ s. s;
  tb_width = λ s. 80;
}

pub above :
    (s : Cells) (x y : ℕ) (text : Text) (i j : ℕ) → j < y → written s x y text i j ≡ s.back i j
above s x y text i j h = let e : (j == y) ≡ false = ground arith in rw e refl

abbrev pub laws_80 : TermboxLaws cells_80
laws_80 = record {
  cell = λ (s : Cells). s.back;
  shown = λ (s : Cells). s.front;
  width = 80;
  height = 24;
  cell_set = λ s x y v i j h k. refl;
  cell_print = λ s x y f b text i j h. above s x y text i j h;
  cell_present = λ s x y. refl;
  shown_present = λ s x y. refl;
}

abbrev pub blank_screen : Cells
blank_screen = record { back = λ x y. plain_cell 32; front = λ x y. plain_cell 32 }

abbrev pub new_queue : Queue RendererCommand
new_queue = record { nodes = λ p. none; head = none; tail = none }

abbrev redraw : RendererCommand
redraw = command_redraw 0 player_playing

perform-Holds_example :
    Returns
      (perform 0 (push 5 redraw) new_queue)
      (λ r. (r.0 ≡ (specified (push 5 redraw) []).0) × Holds r.1 (specified (push 5 redraw) []).1)
unfolding queue_init
perform-Holds_example =
    perform-Holds 0 (push 5 redraw) new_queue [] (queue_init-Holds new_queue (λ p. refl))
      (omega arith) refl

abbrev first_display : Display cells_80
first_display = record {
  renderer = record { queue = queue_init new_queue; screen = blank_screen };
  map = snake_map;
  pending = redraw ∷ [];
}

first_Reachable : Reachable cells_80 laws_80 first_display
first_Reachable =
    started new_queue blank_screen snake_map 0 player_playing (λ p. refl) (λ x y. refl)

Reachable-Idle_example :
    (t : Display cells_80) × Works cells_80 first_display t
    × Idle cells_80 t
    × (t.renderer.screen.front 2 1 ≡ tile_cell (snake_map.tiles 0 1))
Reachable-Idle_example =
    Reachable-Idle cells_80 laws_80 first_display 0 1 first_Reachable (omega arith) (omega arith)
      (omega arith, omega arith)

-- The queue with the redraw in it, and after the round that draws.
abbrev one_queued : Queue RendererCommand
one_queued = record {
  nodes = store (λ p. none) 5 (some (record { item = redraw; next = none }));
  head = some 5;
  tail = some 5;
}

one_Holds : Holds one_queued (redraw ∷ [])
one_Holds = (
  (5, redraw) ∷ [],
  refl,
  record {
    head_first = refl;
    tail_last = refl;
    linked = (refl, tt, tt);
    owned = λ q (ne, _). store_ne (λ p. none) 5 (some (record { item = redraw; next = none })) q ne;
  },
)

abbrev pub last_display : Display cells_80
last_display = record {
  renderer = record {
    queue = record one_queued { nodes = store one_queued.nodes 5 none; head = none };
    screen = renderer_redraw_screen cells_80 blank_screen snake_map player_playing;
  };
  map = snake_map;
  pending = [];
}

pub last_Reachable : Reachable cells_80 laws_80 last_display
unfolding queue_init queue_push queue_clear free_all queue_pop set_next renderer_redraw
    renderer_round
last_Reachable =
    later
      (later first_Reachable (
        works (
          sent first_display redraw [] 0 5 (record { queue = one_queued; screen = blank_screen })
            refl
            (length-Enough cells_80 laws_80 new_queue [] (queue_init-Holds new_queue (λ p. refl)))
            tt refl)))
      (works (
        drawn
          (record {
            renderer = record { queue = one_queued; screen = blank_screen };
            map = snake_map;
            pending = [];
          })
          1 last_display.renderer
          (length-Enough cells_80 laws_80 one_queued (redraw ∷ []) one_Holds) refl))

Reachable-shown_example : last_display.renderer.screen.front 2 1 ≡ tile_cell (snake_map.tiles 0 1)
unfolding queue_is_empty
Reachable-shown_example =
    Reachable-shown cells_80 laws_80 last_display 0 1 last_Reachable (refl, refl) (omega arith)
      (omega arith) (omega arith, omega arith)
