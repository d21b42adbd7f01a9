-- ===== src/Common/Loops.antt =====
-- Counted loops: `for (i = from; i < from + n; ++i) s = body(i, s)`.
use snake_posix.Common.{
  ℕ, zero, suc, ◌+◌, ◌<◌, ◌≡◌, refl, subst, ◌∙◌, arith, ◌==◌, ltb, ◌&&◌, ◌||◌, if◌then◌else◌,
}

unfoldable pub for_range {ℓ} : {State : Type ℓ} → ℕ → ℕ → (ℕ → State → State) → State → State
for_range zero from step state = state
for_range (suc rounds) from step state =
    let next = step from state in for_range rounds (from + 1) step next

-- What a step below the bound `to` carries on, the loop from `from` to `to` carries on. The bound
-- is a variable of its own, so that it may be a sum or a constant.
pub for_range_inv {ℓ κ} :
    {State : Type ℓ} (Holds : ℕ → State → Type κ) (step : ℕ → State → State) (rounds from to : ℕ)
    (state : State)
    → from + rounds ≡ to
    → ((at : ℕ) (now : State) → at < to → Holds at now → Holds (at + 1) (step at now))
    → Holds from state
    → Holds to (for_range rounds from step state)
unfolding for_range
for_range_inv Holds step zero from to state bound carry first =
    let done : from ≡ to = omega arith in subst (λ at. Holds at state) done first
for_range_inv Holds step (suc rounds) from to state bound carry first =
    let next = carry from state (omega arith) first in
    for_range_inv Holds step rounds (from + 1) to _ (omega arith) carry next

-- Two nested loops over an `h` by `w` grid whose body rewrites the one cell that it is at.
module _ {S A : Type 0} (get : S → ℕ → ℕ → A) (g : ℕ → ℕ → A → A) (body : ℕ → ℕ → S → S)
    (step : (i j : ℕ) (s : S) (r c : ℕ)
      → get (body i j s) r c ≡ (if r == i && c == j then g i j (get s i j) else get s r c)) where
  -- Rows above `i` are done, and row `i` up to column `k`.
  abbrev Done : S → ℕ → ℕ → ℕ → S → Type 0
  Done s w i k t =
      (r c : ℕ)
      → get t r c
        ≡ (if (ltb r i && ltb c w) || (r == i && ltb c k) then g r c (get s r c) else get s r c)

  Done-step : (s : S) (w i k : ℕ) (t : S) → k < w → Done s w i k t → Done s w i (k + 1) (body i k t)
  Done-step s w i k t lt d r c = ground (arith, step i k t r c, d r c, d i k)

  Done-row :
      (s : S) (w i : ℕ) (t : S) → Done s w i 0 t → Done s w (i + 1) 0 (for_range w 0 (body i) t)
  Done-row s w i t d r c =
      let row =
        for_range_inv (λ k u. Done s w i k u) (body i) w 0 w t (omega arith)
          (λ k u lt h. Done-step s w i k u lt h) d in
      ground (arith, row r c)

  pub for_grid_lem :
      (h w : ℕ) (s : S) (r c : ℕ)
      → get (for_range h 0 (λ i. for_range w 0 (body i)) s) r c
        ≡ (if ltb r h && ltb c w then g r c (get s r c) else get s r c)
  for_grid_lem h w s r c =
      let all =
        for_range_inv (λ i u. Done s w i 0 u) (λ i. for_range w 0 (body i)) h 0 h s (omega arith)
          (λ i t lt d. Done-row s w i t d) (λ r c. ground arith) in
      ground (arith, all r c)

-- What the body leaves alone, the loops leave alone.
module _ {S B : Type 0} (proj : S → B) (body : ℕ → ℕ → S → S)
    (keep : (i j : ℕ) (s : S) → proj (body i j s) ≡ proj s) where
  pub for_grid_keeps :
      (h w : ℕ) (s : S) → proj (for_range h 0 (λ i. for_range w 0 (body i)) s) ≡ proj s
  for_grid_keeps h w s =
      for_range_inv (λ i u. proj u ≡ proj s) (λ i. for_range w 0 (body i)) h 0 h s (omega arith)
        (λ i t lt e.
          for_range_inv (λ j u. proj u ≡ proj s) (body i) w 0 w t (omega arith)
            (λ j u l e'. keep i j u ∙ e') e)
        refl
