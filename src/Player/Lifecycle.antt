-- ===== src/Player/Lifecycle.antt =====
-- The life of a player as a state machine: what a tick may do to a status.
use snake_posix.Common.{ℕ, ◌≡◌, ◌≢◌, arith, Bool, false, ◌||◌, ◌==◌, ==-refl}
use snake_posix.Player.{
  Player, PlayerManager, PlayerStatus, player_not_connected, player_playing, player_paused,
  player_dead, player_respawning, player_joining, player_disconnecting, player_other, is_status,
  write_player,
}

-- A player that joins or respawns is placed or finds no room, one that plays may die, one that
-- disconnects leaves, and all else rests.
pub data TickStep : PlayerStatus → PlayerStatus → Type 0 where
  join_placed : TickStep player_joining player_playing
  join_no_room : TickStep player_joining player_dead
  respawn_placed : TickStep player_respawning player_playing
  respawn_no_room : TickStep player_respawning player_dead
  leave : TickStep player_disconnecting player_not_connected
  live : TickStep player_playing player_playing
  die : TickStep player_playing player_dead
  wait : TickStep player_paused player_paused
  lie : TickStep player_dead player_dead
  absent : TickStep player_not_connected player_not_connected
  unknown : (n : ℕ) → TickStep (player_other n) (player_other n)

-- A snake that still moves or waits: the game goes on.
abbrev pub is_alive : PlayerStatus → Bool
is_alive s = is_status s player_playing || is_status s player_paused

pub write_self : (m : PlayerManager) (p : ℕ) (x : Player) → (write_player m p x).players p ≡ x
write_self m p x = rw (==-refl p)

pub write_other :
    (m : PlayerManager) (p q : ℕ) (x : Player)
    → q ≢ p
    → (write_player m p x).players q ≡ m.players q
write_other m p q x ne = let e : (q == p) ≡ false = ground arith in rw e
