-- ===== src/Common/Sums.antt =====
-- Finite sums over `0, 1, ..., n - 1`, for counting cells.
use snake_posix.Common.{
  ℕ, zero, suc, ◌+◌, ◌*◌, ◌≤◌, ◌<◌, ◌≡◌, arith, ◌==◌, Bool-cases, ==→≢, inl, inr, Bool, true, false,
  if◌then◌else◌,
}

pub sum_below : ℕ → (ℕ → ℕ) → ℕ
sum_below zero f = 0
sum_below (suc n) f = f n + sum_below n f

pub sum_below_mono :
    (n : ℕ) (f g : ℕ → ℕ) → ((i : ℕ) → i < n → f i ≤ g i) → sum_below n f ≤ sum_below n g
unfolding sum_below
sum_below_mono zero f g h = omega arith
sum_below_mono (suc n) f g h =
    omega (arith, h n (omega arith), sum_below_mono n f g (λ i lt. h i (omega arith)))

-- A sum falls when no term grows and one term falls.
pub sum_below-lt :
    (n : ℕ) (f g : ℕ → ℕ) (k : ℕ)
    → ((i : ℕ) → i < n → f i ≤ g i)
    → k < n
    → f k < g k
    → sum_below n f < sum_below n g
unfolding sum_below
sum_below-lt zero f g k h hk lt = elim hk [ ]
sum_below-lt (suc n) f g k h hk lt = elim (Bool-cases (n == k)) [
  | inl e ↦
      let e' : k ≡ n = ground arith in
      let lt' : f n < g n = rw e' at lt in
      omega (arith, sum_below_mono n f g (λ i l. h i (omega arith)))
  | inr e ↦
      let ne = ==→≢ n k e in
      omega
        (arith, h n (omega arith), sum_below-lt n f g k (λ i l. h i (omega arith)) (omega arith) lt)
]

pub sum_below-le : (n b : ℕ) (f : ℕ → ℕ) → ((i : ℕ) → i < n → f i ≤ b) → sum_below n f ≤ n * b
unfolding sum_below
sum_below-le zero b f h = omega arith
sum_below-le (suc n) b f h =
    omega (arith, h n (omega arith), sum_below-le n b f (λ i lt. h i (omega arith)))

abbrev pub bit : Bool → ℕ
bit b = if b then 1 else 0

-- The number of cells of an `h` by `w` grid that pass a test.
pub count_cells : ℕ → ℕ → (ℕ → ℕ → Bool) → ℕ
count_cells h w p = sum_below h (λ r. sum_below w (λ c. bit (p r c)))

pub count_cells-le : (h w : ℕ) (p : ℕ → ℕ → Bool) → count_cells h w p ≤ h * w
unfolding count_cells
count_cells-le h w p = sum_below-le h w _ (λ r lt. row r)
  where
    row : (r : ℕ) → sum_below w (λ c. bit (p r c)) ≤ w
    row r = omega (arith, sum_below-le w 1 (λ c. bit (p r c)) (λ c l. ground arith))

bit_mono : (a b : Bool) → (a ≡ true → b ≡ true) → bit a ≤ bit b
bit_mono a b h = ground arith

pub count_cells_mono :
    (h w : ℕ) (p q : ℕ → ℕ → Bool)
    → ((r c : ℕ) → r < h → c < w → p r c ≡ true → q r c ≡ true)
    → count_cells h w p ≤ count_cells h w q
unfolding count_cells
count_cells_mono h w p q k =
    sum_below_mono h _ _ (λ r lr. sum_below_mono w _ _ (λ c lc. bit_mono _ _ (k r c lr lc)))

pub count_cells-lt :
    (h w : ℕ) (p q : ℕ → ℕ → Bool) (r0 c0 : ℕ)
    → ((r c : ℕ) → r < h → c < w → p r c ≡ true → q r c ≡ true)
    → r0 < h
    → c0 < w
    → p r0 c0 ≡ false
    → q r0 c0 ≡ true
    → count_cells h w p < count_cells h w q
unfolding count_cells
count_cells-lt h w p q r0 c0 k hr hc ep eq =
    sum_below-lt h _ _ r0 (λ r lr. sum_below_mono w _ _ (λ c lc. bit_mono _ _ (k r c lr lc))) hr
      (sum_below-lt w _ _ c0 (λ c lc. bit_mono _ _ (k r0 c hr lc)) hc (ground arith))
