-- ===== src/Tests/Walk.antt =====
-- One tick of a game in which a snake of one cell is paused.
use snake_posix.Common.{ℕ, ◌≡◌, refl, arith, Bool, true, false, ◌&&◌, ◌==◌, if◌then◌else◌, if_intro}
use snake_posix.Common.Outcome.{Outcome, ok}
use snake_posix.Geometry.{left}
use snake_posix.Map.{MapTile, tile_player, tile_empty}
use snake_posix.Player.{player_paused, player_not_connected}
use snake_posix.Server.Turn.{Server, server_tick}
use snake_posix.Server.Passed.{Ready}
use snake_posix.Server.Invariant.{is_dead}
use snake_posix.Player.{
  player_manager_peek_player_state, player_manager_get_player_status, for_each_from,
  player_manager_for_each,
}
use snake_posix.Server.Turn.{turn_of, server_tick_process_player, clear_all_dead, spawn_fruits}
use snake_posix.Changelog.{changelog_clear}
use snake_posix.Ticker.{ticker_tick}
use snake_posix.Tests.{counting_rng, at, dirty_server}

abbrev one_cell : ℕ → ℕ → MapTile
one_cell r c = record {
  order = 0;
  type = if r == 0 && c == 1 then tile_player else tile_empty;
  player = 0;
}

abbrev pub walker : Server
walker = record dirty_server {
  map = record { tiles = one_cell; width = 3; height = 2 };
  player_manager = record {
    players = λ q.
        if q == 0
        then record { status = player_paused; direction = left }
        else record { status = player_not_connected; direction = left };
  };
  player_data_cache = record { head = λ q. at 0 1; tail = λ q. at 0 1 };
}

pub walker-Ready : Ready walker
walker-Ready = record {
  board = record {
    fits = record { sizes = (omega arith, omega arith); area = omega arith };
    tall = omega arith;
    wide = omega arith;
  };
  bodies = λ q l b. ((omega arith, omega arith), (omega arith, omega arith));
  tiles = λ c i e. ((omega arith, omega arith), (omega arith, omega arith));
  clear = λ c i.
      if_intro (λ t. is_dead (record { order = 0; type = t; player = 0 }) ≡ false)
        (c.row == 0 && c.column == 1) tile_player tile_empty (λ e. refl) (λ e. refl);
}

abbrev outcome_or : Outcome (Server × Bool) → Server × Bool → Server × Bool
outcome_or (ok r) d = r
outcome_or m d = d

abbrev pub walked : Server × Bool
walked = outcome_or (server_tick counting_rng walker) (walker, true)

pub walker_ticked : server_tick counting_rng walker ≡ ok (walked.0, walked.1)
unfolding player_manager_peek_player_state player_manager_get_player_status for_each_from
    player_manager_for_each turn_of server_tick_process_player clear_all_dead spawn_fruits
    server_tick changelog_clear ticker_tick
walker_ticked = refl
