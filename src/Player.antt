-- ===== src/Player.antt =====
-- `libsnake/player/player.h` and `libsnake/player/player_manager.{h,c}`. Each operation holds the
-- mutex of its player from its first access to its last, so it is one step here.
-- `player_manager_register` holds one mutex at a time; it is one step as well, so a place that
-- becomes free behind its back is not seen.
pub mod Registry
pub mod Lifecycle
pub mod ForEach
use snake_posix.Common.{
  ℕ, zero, suc, ◌+◌, ◌-◌, ◌*◌, ◌/◌, ◌%◌, ◌^◌, ◌≤◌, ◌<◌, ◌≡◌, refl, sym, ap, ◌∙◌, subst, ◌≢◌, ◌↔◌,
  ◌⊎◌, inl, inr, arith, Bool, true, false, not, ◌&&◌, ◌||◌, ◌==◌, ltb, leb, if◌then◌else◌, if_intro,
  Bool-cases, ==-refl, ==→≡, ==→≢, Option, none, some, Option-cases, List, [], ◌∷◌, ◌++◌,
}
use package.snake_posix.Common.Loops.{for_range}
use package.snake_posix.Common.Outcome.{Outcome, ok, ◌>>=◌}
use package.snake_posix.Geometry.{Direction, up}
use package.snake_posix.Map.{max_players}

-- `player_status_t`. `player_other n` is the value n + 7 of the C type, which only a received
-- message can hold.
pub data PlayerStatus : Type 0 where
  player_not_connected player_playing player_paused player_dead : PlayerStatus
  player_respawning player_joining player_disconnecting : PlayerStatus
  player_other : ℕ → PlayerStatus

abbrev pub status_code : PlayerStatus → ℕ
status_code player_not_connected = 0
status_code player_playing = 1
status_code player_paused = 2
status_code player_dead = 3
status_code player_respawning = 4
status_code player_joining = 5
status_code player_disconnecting = 6
status_code (player_other n) = n + 7

-- The value of the type with a given code: a cast to `player_status_t`.
unfoldable pub status_of_code : ℕ → PlayerStatus
status_of_code k =
    if k == 0
    then player_not_connected
    else (if k == 1
        then player_playing
        else (if k == 2
            then player_paused
            else (if k == 3
                then player_dead
                else (if k == 4
                    then player_respawning
                    else (if k == 5
                        then player_joining
                        else (if k == 6 then player_disconnecting else player_other (k - 7)))))))

pub status_of_code-status_code : (s : PlayerStatus) → status_of_code (status_code s) ≡ s
unfolding status_of_code
status_of_code-status_code player_not_connected = refl
status_of_code-status_code player_playing = refl
status_of_code-status_code player_paused = refl
status_of_code-status_code player_dead = refl
status_of_code-status_code player_respawning = refl
status_of_code-status_code player_joining = refl
status_of_code-status_code player_disconnecting = refl
status_of_code-status_code (player_other n) = ground arith

abbrev pub is_status : PlayerStatus → PlayerStatus → Bool
is_status a b = status_code a == status_code b

-- `player_t`
pub record Player : Type 0 where
  pub status : PlayerStatus
  pub direction : Direction

-- `player_manager_t`
pub record PlayerManager : Type 0 where
  pub players : ℕ → Player

abbrev pub write_player : PlayerManager → ℕ → Player → PlayerManager
write_player self i p = record { players = λ j. if j == i then p else self.players j }

unfoldable pub player_manager_init : PlayerManager → PlayerManager
unfolding for_range
player_manager_init self =
    for_range max_players 0
      (λ i m. write_player m i (record (m.players i) { status = player_not_connected })) self

-- The loop of `player_manager_register` from index `i`, with `n` rounds left.
unfoldable pub register_from : ℕ → ℕ → PlayerManager → Option (ℕ × PlayerManager)
register_from zero i self = none
register_from (suc n) i self =
    let rest = register_from n (i + 1) self in
    if not (is_status (self.players i).status player_not_connected)
    then rest
    else some (i, write_player self i (record { status = player_joining; direction = up }))

-- `none` is the result false.
unfoldable pub player_manager_register : PlayerManager → Option (ℕ × PlayerManager)
unfolding register_from
player_manager_register self = register_from max_players 0 self

unfoldable pub player_manager_unregister : PlayerManager → ℕ → PlayerManager
player_manager_unregister self id =
    let p = self.players id in
    write_player self id (record p {
      status =
          if is_status p.status player_dead
            || is_status p.status player_respawning
            || is_status p.status player_joining
          then player_not_connected
          else player_disconnecting;
    })

unfoldable pub player_manager_pause : PlayerManager → ℕ → PlayerManager
player_manager_pause self id =
    let p = self.players id in
    if is_status p.status player_playing
    then write_player self id (record p { status = player_paused })
    else self

unfoldable pub player_manager_unpause : PlayerManager → ℕ → PlayerManager
player_manager_unpause self id =
    let p = self.players id in
    if is_status p.status player_paused
    then write_player self id (record p { status = player_playing })
    else self

unfoldable pub player_manager_respawn : PlayerManager → ℕ → PlayerManager
player_manager_respawn self id =
    let p = self.players id in
    if is_status p.status player_dead
    then write_player self id (record p { status = player_respawning })
    else self

unfoldable pub player_manager_get_player_state : PlayerManager → ℕ → Player
player_manager_get_player_state self id = self.players id

unfoldable pub player_manager_peek_player_state : PlayerManager → ℕ → Player
player_manager_peek_player_state self id = self.players id

unfoldable pub player_manager_get_player_status : PlayerManager → ℕ → PlayerStatus
player_manager_get_player_status self id = (self.players id).status

unfoldable pub player_manager_set_player_direction : PlayerManager → ℕ → Direction → PlayerManager
player_manager_set_player_direction self id direction =
    write_player self id (record (self.players id) { direction = direction })

-- The loop over the players, from index `i` with `n` rounds left. The callback's `player` points
-- into the manager, so the callback returns the manager.
unfoldable pub for_each_from {ℓ} :
    {C : Type ℓ}
    → (PlayerManager → ℕ → C → Outcome (PlayerManager × C))
    → ℕ
    → ℕ
    → PlayerManager
    → C
    → Outcome (PlayerManager × C)
for_each_from f zero i self ctx = ok (self, ctx)
for_each_from f (suc n) i self ctx = do
  (self', ctx') ←
      if not (is_status (self.players i).status player_not_connected)
      then f self i ctx
      else ok (self, ctx)
  for_each_from f n (i + 1) self' ctx'

-- All mutexes are held throughout, so the loop is one step.
unfoldable pub player_manager_for_each {ℓ} :
    {C : Type ℓ}
    → PlayerManager
    → (PlayerManager → ℕ → C → Outcome (PlayerManager × C))
    → C
    → Outcome (PlayerManager × C)
unfolding for_each_from
player_manager_for_each self f ctx = for_each_from f max_players 0 self ctx
