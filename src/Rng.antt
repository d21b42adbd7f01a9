-- ===== src/Rng.antt =====
-- `libsnake/rng.{h,c}`. `rng_uniform_dist` is `floor` of a multiple of `drand48`, in floating
-- point: the two are the C library's. What the game relies on is that a draw lies in its range.
use snake_posix.Common.{ℕ, ◌≤◌, ◌<◌}

-- The state is that of `drand48`, a 48-bit number that `srand48` sets; each draw gives the next.
pub record Rng : Type 0 where
  pub uniform_dist : (min max_exclusive seed : ℕ) → ℕ × ℕ
  pub in_range :
      (min max_exclusive seed : ℕ)
      → min < max_exclusive
      → (min ≤ (uniform_dist min max_exclusive seed).0)
        × ((uniform_dist min max_exclusive seed).0 < max_exclusive)
