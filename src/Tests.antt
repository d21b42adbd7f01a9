-- ===== src/Tests.antt =====
-- Small concrete inputs, on which the tests of the child modules run the code and the theorems.
pub mod Board
pub mod Play
pub mod Walk
pub mod Wire
pub mod Session
pub mod Files
pub mod Shared
pub mod Screen
pub mod Setup
pub mod Threads
use package.snake_posix.Common.{
  ℕ, zero, suc, ◌+◌, ◌-◌, ◌*◌, ◌/◌, ◌%◌, ◌^◌, ◌≤◌, ◌<◌, ◌≡◌, refl, sym, ap, ◌∙◌, subst, ◌≢◌, ◌↔◌,
  ◌⊎◌, inl, inr, arith, Bool, true, false, not, ◌&&◌, ◌||◌, ◌==◌, ltb, leb, if◌then◌else◌, if_intro,
  Bool-cases, ==-refl, ==→≡, ==→≢, Option, none, some, Option-cases, List, [], ◌∷◌, ◌++◌,
}
use package.snake_posix.Rng.{Rng}
use package.snake_posix.Geometry.{Coordinates, Direction, up, left, down, right}
use package.snake_posix.Map.{
  Map, MapTile, MapTemplate, tile_empty, tile_wall, tile_player, tile_fruit, map_template_init,
  map_template_set_wall,
}
use package.snake_posix.Changelog.{Change, Changelog, change_tile_state}
use package.snake_posix.Player.{Player, PlayerManager, player_playing, player_joining}
use package.snake_posix.Ticker.{Ticker}
use package.snake_posix.Server.{PlayerDataCache}
use package.snake_posix.Server.Turn.{Server}

-- A generator that counts up.
unfoldable pub draw : ℕ → ℕ → ℕ → ℕ × ℕ
draw low high seed = (if ltb (low + seed) high then low + seed else low, seed + 1)

pub draw_range :
    (low high seed : ℕ)
    → low < high
    → (low ≤ (draw low high seed).0) × ((draw low high seed).0 < high)
unfolding draw
draw_range low high seed h = ground arith

abbrev pub counting_rng : Rng
unfolding draw
counting_rng = record { uniform_dist = draw; in_range = draw_range }

abbrev pub at : ℕ → ℕ → Coordinates
at r c = record { row = r; column = c }

abbrev pub blank_tile : MapTile
blank_tile = record { order = 0; type = tile_empty; player = 0 }

abbrev pub body : ℕ → ℕ → MapTile
body p n = record { order = n; type = tile_player; player = p }

-- A board of two rows and four columns: a wall, the three cells of the snake of player 1 with its
-- head in row 0, column 1, and empty cells.
abbrev snake_tiles : ℕ → ℕ → MapTile
snake_tiles r c =
    if r == 0 && c == 1
    then body 1 7
    else (if r == 0 && c == 2
        then body 1 6
        else (if r == 0 && c == 3
            then body 1 5
            else (if r == 1 && c == 0
                then record { order = 0; type = tile_wall; player = 0 }
                else blank_tile)))

abbrev pub snake_map : Map
snake_map = record { tiles = snake_tiles; width = 4; height = 2 }

-- Memory that holds no good value.
abbrev pub dirty_template : MapTemplate
dirty_template = record { walls = λ r c. true; width = 9; height = 9 }

abbrev pub dirty_server : Server
dirty_server = record {
  changelog = record { changes = λ i. change_tile_state (at 7 7) (body 3 3); size = 5 };
  map = record { tiles = λ r c. body 2 2; width = 0; height = 0 };
  player_manager = record { players = λ q. record { status = player_playing; direction = left } };
  ticker = record { tick = 3 };
  game_ended = true;
  player_data_cache = record { head = λ q. at 8 8; tail = λ q. at 8 8 };
  seed = 1;
}
