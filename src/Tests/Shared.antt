-- ===== src/Tests/Shared.antt =====
-- The theorems on a client in shared memory.
use snake_posix.Common.{◌≡◌, refl, false}
use snake_posix.Common.Outcome.{Ensures}
use snake_posix.Geometry.{up, right}
use snake_posix.Map.Neighbors.{tile_at}
use snake_posix.Player.{Player, player_joining}
use snake_posix.Server.Turn.{server_tick}
use snake_posix.ShmClient.{ShmClient, shm_client_tick}
use snake_posix.ShmClient.Shown.{server_tick-shm_client_tick}
use snake_posix.Tests.{counting_rng, at}
use snake_posix.Tests.Play.{joined, joined-Ready, corner}

abbrev shown : ShmClient
shown = record {
  player_id = 0;
  player_status = player_joining;
  last_player_direction = right;
  exit = false;
  shown = joined.map;
}

abbrev still : Player
still = record { status = player_joining; direction = up }

server_tick-shm_client_tick_example : Ensures (server_tick counting_rng joined) (λ r.
    tile_at (shm_client_tick shown 1 still r.0.map r.0.changelog).shown (at 0 0)
    ≡ tile_at r.0.map (at 0 0))
server_tick-shm_client_tick_example =
    server_tick-shm_client_tick counting_rng joined shown 1 still (at 0 0) joined-Ready corner refl
