-- ===== src/Map/Search/Shuffle.antt =====
-- The loop that shuffles the four directions of the search.

use snake_posix.Common.{
  ℕ, zero, suc, ◌<◌, ◌≡◌, sym, ap, ◌∙◌, ◌⊎◌, inl, inr, arith, ◌==◌, Bool-cases, ==→≡, List, ◌∷◌,
  length, get_or, set, length-set, get_or-set_self, get_or-set_ne,
}
use snake_posix.Rng.{Rng}
use snake_posix.Geometry.{Direction, up}
use snake_posix.Map.Search.{swap_items, shuffle}

abbrev pub HasDirection : List Direction → Direction → Type 0
HasDirection l e = (k : ℕ) × (k < length l) × (get_or l k up ≡ e)

pub HasDirection-tail :
    (d : Direction) (ds : List Direction) (e : Direction)
    → HasDirection (d ∷ ds) e
    → (e ≡ d) ⊎ HasDirection ds e
HasDirection-tail d ds e (zero, lt, h) = inl (sym h)
HasDirection-tail d ds e (suc k, lt, h) = inr (k, omega arith, h)

length-swap_items : (l : List Direction) (i j : ℕ) → length (swap_items l i j up) ≡ length l
length-swap_items l i j = length-set (set l i _) j _ ∙ length-set l i _

swap_items-HasDirection :
    (l : List Direction) (i j : ℕ) (e : Direction)
    → i < length l
    → j < length l
    → HasDirection l e
    → HasDirection (swap_items l i j up) e
swap_items-HasDirection l i j e hi hj (k, lt, h) =
    let size = length-swap_items l i j in
    let inner = length-set l i (get_or l j up) in
    elim (Bool-cases (k == i)) [
      | inl ki ↦ (
        j,
        omega (arith, size),
        get_or-set_self (set l i (get_or l j up)) j (get_or l i up) up (omega (arith, inner))
            ∙ ap (λ n. get_or l n up) (sym (==→≡ k i ki))
            ∙ h,
      )
      | inr ki ↦ elim (Bool-cases (k == j)) [
        | inl kj ↦ (
          i,
          omega (arith, size),
          get_or-set_ne (set l i (get_or l j up)) (get_or l i up) up (ground arith)
              ∙ get_or-set_self l i (get_or l j up) up hi
              ∙ ap (λ n. get_or l n up) (sym (==→≡ k j kj))
              ∙ h,
        )
        | inr kj ↦ (
          k,
          omega (arith, size),
          get_or-set_ne (set l i (get_or l j up)) (get_or l i up) up (ground arith)
              ∙ get_or-set_ne l (get_or l j up) up (ground arith)
              ∙ h,
        )
      ]
    ]

-- Whatever the generator draws, the shuffle loses no direction.
pub shuffle-HasDirection :
    (rng : Rng) (n : ℕ) (l : List Direction) (seed : ℕ) (e : Direction)
    → length l ≡ 4
    → HasDirection l e
    → HasDirection (shuffle rng n l seed).0 e
unfolding shuffle
shuffle-HasDirection rng zero l seed e size h = h
shuffle-HasDirection rng (suc n) l seed e size h =
    let seed1 = (rng.uniform_dist 0 4 seed).1 in
    let i = (rng.uniform_dist 0 4 seed).0 in
    let j = (rng.uniform_dist 0 4 seed1).0 in
    shuffle-HasDirection rng n (swap_items l i j up) _ e (length-swap_items l i j ∙ size) (
      swap_items-HasDirection l i j e (omega (arith, rng.in_range 0 4 seed (omega arith)))
        (omega (arith, rng.in_range 0 4 seed1 (omega arith))) h)
