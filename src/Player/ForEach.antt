-- ===== src/Player/ForEach.antt =====
-- The invariant rule of `player_manager_for_each`.
use snake_posix.Common.{ℕ, zero, suc, ◌+◌, ◌<◌, ◌≡◌, refl, subst, arith, not, if◌then◌else◌}
use snake_posix.Common.Outcome.{Outcome, ok, Ensures, Ensures->>=}
use snake_posix.Map.{max_players}
use snake_posix.Player.{
  PlayerManager, player_not_connected, is_status, for_each_from, player_manager_for_each,
}

module _ {ℓ} {C : Type ℓ} (f : PlayerManager → ℕ → C → Outcome (PlayerManager × C))
    (P : ℕ → PlayerManager × C → Type 0) where
  for_each_from_inv :
      (n i j : ℕ) (m : PlayerManager) (c : C)
      → i + n ≡ j
      → ((k : ℕ) (m : PlayerManager) (c : C)
          → k < j
          → P k (m, c)
          → Ensures
              (if not (is_status (m.players k).status player_not_connected)
                then f m k c
                else ok (m, c))
              (P (k + 1)))
      → P i (m, c)
      → Ensures (for_each_from f n i m c) (P j)
  unfolding for_each_from
  for_each_from_inv zero i j m c e keep h =
      let e' : i ≡ j = omega arith in subst (λ k. P k (m, c)) e' h
  for_each_from_inv (suc n) i j m c e keep h =
      Ensures->>= _ (λ r. for_each_from f n (i + 1) r.0 r.1) (P (i + 1)) (P j)
        (keep i m c (omega arith) h)
        (λ r h'. for_each_from_inv n (i + 1) j r.0 r.1 (omega arith) keep h')

  -- A property of the players before index `k` that the callback and the skipped players carry on
  -- holds of all at the end.
  pub for_each_inv :
      (m : PlayerManager) (c : C)
      → ((k : ℕ) (m : PlayerManager) (c : C)
          → k < max_players
          → P k (m, c)
          → Ensures
              (if not (is_status (m.players k).status player_not_connected)
                then f m k c
                else ok (m, c))
              (P (k + 1)))
      → P 0 (m, c)
      → Ensures (player_manager_for_each m f c) (P max_players)
  unfolding player_manager_for_each
  for_each_inv m c keep h = for_each_from_inv max_players 0 max_players m c refl keep h
