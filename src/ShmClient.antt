-- ===== src/ShmClient.antt =====
-- `client/shm_client.c`, and the dispatch of keys in `client/input.c`: a client that shares the memory
-- of the server. The renderer's screen is taken as the board that it shows.
pub mod Shown
pub mod Same
use package.snake_posix.Common.{
  ℕ, zero, suc, ◌+◌, ◌-◌, ◌*◌, ◌/◌, ◌%◌, ◌^◌, ◌≤◌, ◌<◌, ◌≡◌, refl, sym, ap, ◌∙◌, subst, ◌≢◌, ◌↔◌,
  ◌⊎◌, inl, inr, arith, Bool, true, false, not, ◌&&◌, ◌||◌, ◌==◌, ltb, leb, if◌then◌else◌, if_intro,
  Bool-cases, ==-refl, ==→≡, ==→≢, Option, none, some, Option-cases, List, [], ◌∷◌, ◌++◌,
}
use package.snake_posix.Geometry.{Direction, up, left, down, right, direction_eq}
use package.snake_posix.Map.{Map, map_set_tile_state}
use package.snake_posix.Changelog.{
  Change, Changelog, change_tile_state, syn_changelog_for_each_copy,
}
use package.snake_posix.Player.{
  Player, PlayerManager, PlayerStatus, player_playing, player_paused, player_dead, is_status,
  player_manager_set_player_direction, player_manager_pause, player_manager_unpause,
  player_manager_respawn,
}

-- The keys that `input_main` reacts to.
pub data Key : Type 0 where
  key_arrow : Direction → Key
  key_escape key_pause key_unpause key_respawn : Key

-- The variables of `shm_client_run` that the input callbacks share, and the board that is shown.
pub record ShmClient : Type 0 where
  pub player_id : ℕ
  pub player_status : PlayerStatus
  pub last_player_direction : Direction
  pub exit : Bool
  pub shown : Map

unfoldable pub shm_client_on_arrow_press : ShmClient → PlayerManager → Direction → PlayerManager
shm_client_on_arrow_press self manager up =
    if direction_eq self.last_player_direction down
    then manager
    else player_manager_set_player_direction manager self.player_id up
shm_client_on_arrow_press self manager left =
    if direction_eq self.last_player_direction right
    then manager
    else player_manager_set_player_direction manager self.player_id left
shm_client_on_arrow_press self manager down =
    if direction_eq self.last_player_direction up
    then manager
    else player_manager_set_player_direction manager self.player_id down
shm_client_on_arrow_press self manager right =
    if direction_eq self.last_player_direction left
    then manager
    else player_manager_set_player_direction manager self.player_id right
shm_client_on_arrow_press self manager _ = manager

unfoldable pub shm_client_on_pause_press : ShmClient → PlayerManager → PlayerManager
shm_client_on_pause_press self manager =
    if is_status self.player_status player_playing
    then player_manager_pause manager self.player_id
    else manager

unfoldable pub shm_client_on_unpause_press : ShmClient → PlayerManager → PlayerManager
shm_client_on_unpause_press self manager =
    if is_status self.player_status player_paused
    then player_manager_unpause manager self.player_id
    else manager

unfoldable pub shm_client_on_respawn_press : ShmClient → PlayerManager → PlayerManager
shm_client_on_respawn_press self manager =
    if is_status self.player_status player_dead
    then player_manager_respawn manager self.player_id
    else manager

-- The dispatch of `input_main`.
unfoldable pub press : ShmClient → PlayerManager → Key → ShmClient × PlayerManager
press self manager (key_arrow d) = (self, shm_client_on_arrow_press self manager d)
press self manager key_escape = (record self { exit = true }, manager)
press self manager key_pause = (self, shm_client_on_pause_press self manager)
press self manager key_unpause = (self, shm_client_on_unpause_press self manager)
press self manager key_respawn = (self, shm_client_on_respawn_press self manager)

-- `shm_client_update_renderer`
unfoldable pub shm_client_update_renderer : Change → Map → Map
shm_client_update_renderer (change_tile_state c t) shown = map_set_tile_state shown c t

-- The body of the loop of `shm_client_run` after a wait, where the game goes on.
unfoldable pub shm_client_tick : ShmClient → ℕ → Player → Map → Changelog → ShmClient
shm_client_tick self ticks_passed player_state map changelog =
    if ltb 1 ticks_passed || not (is_status player_state.status self.player_status)
    then record self {
      last_player_direction = player_state.direction;
      player_status = player_state.status;
      shown = map;
    }
    else record self {
      last_player_direction = player_state.direction;
      shown = syn_changelog_for_each_copy changelog shm_client_update_renderer self.shown;
    }
