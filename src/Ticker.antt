-- ===== src/Ticker.antt =====
-- `libsnake/ticker.{h,c}`. Each operation holds the mutex, so it is one step here.
use snake_posix.Common.{
  ℕ, zero, suc, ◌+◌, ◌-◌, ◌%◌, ◌^◌, ◌<◌, ◌≡◌, arith, ◌==◌, if◌then◌else◌, Option, none, some,
}

-- `tick_` is a `size_t`.
pub record Ticker : Type 0 where
  pub tick : ℕ

-- `last_tick_`; the pointer to the ticker is an argument of the operations.
pub record TickerObserver : Type 0 where
  pub last_tick : ℕ

unfoldable pub ticker_init : Ticker
ticker_init = record { tick = 0 }

unfoldable pub ticker_tick : Ticker → Ticker
ticker_tick self = record { tick = (self.tick + 1) % 2 ^ 64 }

unfoldable pub ticker_observer_init : Ticker → TickerObserver
ticker_observer_init ticker = record { last_tick = ticker.tick }

-- `none` means that the caller stays in `pthread_cond_wait` until the next broadcast.
unfoldable pub ticker_observer_wait_for_next_tick :
    TickerObserver → Ticker → Option (ℕ × TickerObserver)
ticker_observer_wait_for_next_tick self ticker =
    if self.last_tick == ticker.tick
    then none
    else some ((ticker.tick + 2 ^ 64 - self.last_tick) % 2 ^ 64, record { last_tick = ticker.tick })

unfoldable pub ticks : ℕ → Ticker → Ticker
ticks zero t = t
ticks (suc n) t = ticks n (ticker_tick t)

ticks_lem : (n : ℕ) (t : Ticker) → t.tick < 2 ^ 64 → (ticks n t).tick ≡ (t.tick + n) % 2 ^ 64
unfolding ticks ticker_tick
ticks_lem zero t h = omega arith
ticks_lem (suc n) t h = omega (arith, ticks_lem n (ticker_tick t) (omega arith))

-- An observer that starts at a ticker and looks again after `n` ticks, below 2 ^ 64 and maybe
-- across a wrap of the counter, waits when `n` is 0, and else is told `n` and has seen them all.
pub wait-ticks :
    (n : ℕ) (t : Ticker)
    → t.tick < 2 ^ 64
    → n < 2 ^ 64
    → ticker_observer_wait_for_next_tick (ticker_observer_init t) (ticks n t)
      ≡ (if n == 0 then none else some (n, ticker_observer_init (ticks n t)))
unfolding ticker_observer_wait_for_next_tick ticker_observer_init
wait-ticks n t h k = ground (arith, ticks_lem n t h)
