-- ===== src/Player/Registry.antt =====
-- `player_manager_register`, and the requests of a client as steps of its player.
use snake_posix.Common.{
  ℕ, zero, suc, ◌+◌, ◌<◌, ◌≡◌, refl, sym, ap, ◌∙◌, subst, ◌≢◌, inl, inr, arith, true, false, not,
  ◌||◌, ◌==◌, if◌then◌else◌, if_intro, Bool-cases, ==→≡, ==→≢, ◌⊎◌, Option, none, some,
}
use snake_posix.Geometry.{Direction, up}
use snake_posix.Map.{max_players}
use snake_posix.Player.{
  Player, PlayerManager, PlayerStatus, player_not_connected, player_playing, player_paused,
  player_dead, player_respawning, player_joining, player_disconnecting, player_other, status_code,
  status_of_code, status_of_code-status_code, is_status, write_player, register_from,
  player_manager_register, player_manager_unregister, player_manager_pause, player_manager_unpause,
  player_manager_respawn, player_manager_set_player_direction,
}
use snake_posix.Player.Lifecycle.{write_self, write_other}

abbrev Free : PlayerManager → ℕ → Type 0
Free m i = (m.players i).status ≡ player_not_connected

-- Either every place is taken, or the first free one now belongs to a player that joins.
pub data Registered (m : PlayerManager) : Option (ℕ × PlayerManager) → Type 0 where
  full : ((q : ℕ) → q < max_players → ¬ Free m q) → Registered m none
  placed :
      (i : ℕ)
      → i < max_players
      → Free m i
      → ((q : ℕ) → q < i → ¬ Free m q)
      → Registered m
          (some (i, write_player m i (record { status = player_joining; direction = up })))

taken-Free :
    (m : PlayerManager) (i : ℕ)
    → not (is_status (m.players i).status player_not_connected) ≡ true
    → ¬ Free m i
taken-Free m i e f =
    let clash : false ≡ true = sym (ap (λ s. not (is_status s player_not_connected)) f) ∙ e in cc

free-Free :
    (s : PlayerStatus) → not (is_status s player_not_connected) ≡ false → s ≡ player_not_connected
free-Free player_not_connected e = refl
free-Free player_playing e = absurd (ground arith)
free-Free player_paused e = absurd (ground arith)
free-Free player_dead e = absurd (ground arith)
free-Free player_respawning e = absurd (ground arith)
free-Free player_joining e = absurd (ground arith)
free-Free player_disconnecting e = absurd (ground arith)
free-Free (player_other n) e = absurd (ground arith)

register_from-Registered :
    (n i : ℕ) (m : PlayerManager)
    → i + n ≡ max_players
    → ((q : ℕ) → q < i → ¬ Free m q)
    → Registered m (register_from n i m)
unfolding register_from
register_from-Registered zero i m e taken = full (λ q l. taken q (omega arith))
register_from-Registered (suc n) i m e taken =
    if_intro (Registered m) (not (is_status (m.players i).status player_not_connected))
      (register_from n (i + 1) m) _
      (λ t. register_from-Registered n (i + 1) m (omega arith) (λ q l. elim (Bool-cases (q == i)) [
        | inl same ↦ subst (λ x. ¬ Free m x) (sym (==→≡ q i same)) (taken-Free m i t)
        | inr ne ↦ taken q (ground arith)
      ]))
      (λ f. placed i (omega arith) (free-Free _ f) taken)

-- A player that registers gets the first of the places that no player has, where it joins with
-- direction up, and nothing else changes; it is refused exactly if all places are taken.
pub register-Registered : (m : PlayerManager) → Registered m (player_manager_register m)
unfolding player_manager_register
register-Registered m = register_from-Registered max_players 0 m refl (λ q l. absurd (omega arith))

pub data Request : Type 0 where
  to_pause to_unpause to_respawn to_leave : Request

-- What a request makes of the status of the player that asks.
pub data RequestStep : Request → PlayerStatus → PlayerStatus → Type 0 where
  pauses : RequestStep to_pause player_playing player_paused
  pause_ignored : (s : PlayerStatus) → s ≢ player_playing → RequestStep to_pause s s
  unpauses : RequestStep to_unpause player_paused player_playing
  unpause_ignored : (s : PlayerStatus) → s ≢ player_paused → RequestStep to_unpause s s
  respawns : RequestStep to_respawn player_dead player_respawning
  respawn_ignored : (s : PlayerStatus) → s ≢ player_dead → RequestStep to_respawn s s
  leaves_at_once :
      (s : PlayerStatus)
      → (s ≡ player_dead) ⊎ (s ≡ player_respawning) ⊎ (s ≡ player_joining)
      → RequestStep to_leave s player_not_connected
  leaves_at_tick :
      (s : PlayerStatus)
      → s ≢ player_dead
      → s ≢ player_respawning
      → s ≢ player_joining
      → RequestStep to_leave s player_disconnecting

-- The effect of a request on the players: the status of the player that asks takes its step, the
-- direction stays, and so do all others.
pub record Requested (r : Request) (m : PlayerManager) (id : ℕ) (m' : PlayerManager) : Type 0 where
  pub step : RequestStep r (m.players id).status (m'.players id).status
  pub heading : (m'.players id).direction ≡ (m.players id).direction
  pub others : (q : ℕ) → q ≢ id → m'.players q ≡ m.players q

pub is_status→≡ : (a b : PlayerStatus) → is_status a b ≡ true → a ≡ b
is_status→≡ a b e =
    sym (status_of_code-status_code a)
    ∙ ap status_of_code (==→≡ _ _ e)
    ∙ status_of_code-status_code b

leaving :
    (s : PlayerStatus)
    → RequestStep to_leave s (
        if is_status s player_dead || is_status s player_respawning || is_status s player_joining
        then player_not_connected
        else player_disconnecting)
leaving player_not_connected = leaves_at_tick _ (λ e. cc) (λ e. cc) (λ e. cc)
leaving player_playing = leaves_at_tick _ (λ e. cc) (λ e. cc) (λ e. cc)
leaving player_paused = leaves_at_tick _ (λ e. cc) (λ e. cc) (λ e. cc)
leaving player_dead = leaves_at_once _ (inl refl)
leaving player_respawning = leaves_at_once _ (inr (inl refl))
leaving player_joining = leaves_at_once _ (inr (inr refl))
leaving player_disconnecting = leaves_at_tick _ (λ e. cc) (λ e. cc) (λ e. cc)
leaving (player_other n) =
    let a : (n + 7 == 3) ≡ false = ground arith in
    let b : (n + 7 == 4) ≡ false = ground arith in
    let c : (n + 7 == 5) ≡ false = ground arith in
    rw (a, b, c) (leaves_at_tick (player_other n) (λ e. cc) (λ e. cc) (λ e. cc))

module _ (m : PlayerManager) (id : ℕ) where
  set_status-Requested :
      (r : Request) (s : PlayerStatus)
      → RequestStep r (m.players id).status s
      → Requested r m id (write_player m id (record (m.players id) { status = s }))
  set_status-Requested r s h =
      let x : Player = record (m.players id) { status = s } in
      record {
        step =
            subst (λ (y : Player). RequestStep r (m.players id).status y.status)
              (sym (write_self m id x)) h;
        heading = ap (λ (y : Player). y.direction) (write_self m id x);
        others = λ q ne. write_other m id q x ne;
      }

  guarded-Requested :
      (r : Request) (old new : PlayerStatus)
      → RequestStep r old new
      → ((s : PlayerStatus) → s ≢ old → RequestStep r s s)
      → Requested r m id (
          if is_status (m.players id).status old
          then write_player m id (record (m.players id) { status = new })
          else m)
  guarded-Requested r old new h ignored =
      if_intro (Requested r m id) _ _ m
        (λ e.
          set_status-Requested r new
            (subst (λ s. RequestStep r s new) (sym (is_status→≡ (m.players id).status old e)) h))
        (λ e. record {
          step = ignored (m.players id).status (λ same. ==→≢ _ _ e (ap status_code same));
          heading = refl;
          others = λ q ne. refl;
        })

  -- A request to pause makes a player that plays paused, one to go on a player that is paused play, one
  -- to respawn a player that is dead respawn, and each leaves a player of any other status. A request to
  -- leave makes a player that is dead, respawning or joining not connected, and any other leave at the
  -- next tick. They keep the direction, which a turn replaces, and it keeps the status; none of them
  -- changes another player.
  pub requests-Requested :
      (direction : Direction)
      → Requested to_pause m id (player_manager_pause m id)
        × Requested to_unpause m id (player_manager_unpause m id)
        × Requested to_respawn m id (player_manager_respawn m id)
        × Requested to_leave m id (player_manager_unregister m id)
        × ((player_manager_set_player_direction m id direction).players id
            ≡ record (m.players id) { direction = direction })
        × ((q : ℕ)
            → q ≢ id
            → (player_manager_set_player_direction m id direction).players q ≡ m.players q)
  unfolding player_manager_pause player_manager_unpause player_manager_respawn
      player_manager_unregister player_manager_set_player_direction
  requests-Requested direction = (
    guarded-Requested to_pause player_playing player_paused pauses pause_ignored,
    guarded-Requested to_unpause player_paused player_playing unpauses unpause_ignored,
    guarded-Requested to_respawn player_dead player_respawning respawns respawn_ignored,
    set_status-Requested to_leave _ (leaving (m.players id).status),
    write_self m id _,
    λ q ne. write_other m id q _ ne,
  )
