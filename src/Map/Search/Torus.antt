-- ===== src/Map/Search/Torus.antt =====
-- Sets of cells of the board that are closed under steps down and right.
use snake_posix.Common.{ℕ, zero, suc, ◌+◌, ◌-◌, ◌<◌, ◌≡◌, subst, arith}
use snake_posix.Geometry.{Coordinates, down, right}
use snake_posix.Map.{Map, map_move_in_direction}
use snake_posix.Map.Moves.{Inside, FitsU32}

-- On a cycle of `n` places, a set that is closed under the next place is everything.
module _ {ℓ} (n : ℕ) (P : ℕ → Type ℓ) (next : (r : ℕ) → r + 1 < n → P r → P (r + 1))
    (wrap : (r : ℕ) → r + 1 ≡ n → P r → P 0) where
  climb : (k r s : ℕ) → r + k ≡ s → s < n → P r → P s
  climb zero r s e lt h = let e' : r ≡ s = omega arith in subst P e' h
  climb (suc k) r s e lt h = climb k (r + 1) s (omega arith) lt (next r (omega arith) h)

  cycle : (r : ℕ) → r < n → P r → (s : ℕ) → s < n → P s
  cycle r lt h s lt' =
      let top = climb (n - 1 - r) r (n - 1) (omega arith) (omega arith) h in
      climb s 0 s (omega arith) lt' (wrap (n - 1) (omega arith) top)

abbrev at : ℕ → ℕ → Coordinates
at r k = record { row = r; column = k }

module _ (m : Map) (fits : FitsU32 m) where
  down_next : (r k : ℕ) → r + 1 < m.height → map_move_in_direction m (at r k) down ≡ at (r + 1) k
  unfolding map_move_in_direction
  down_next r k h = ground arith

  down_wrap : (r k : ℕ) → r + 1 ≡ m.height → map_move_in_direction m (at r k) down ≡ at 0 k
  unfolding map_move_in_direction
  down_wrap r k h = ground arith

  right_next : (r k : ℕ) → k + 1 < m.width → map_move_in_direction m (at r k) right ≡ at r (k + 1)
  unfolding map_move_in_direction
  right_next r k h = ground arith

  right_wrap : (r k : ℕ) → k + 1 ≡ m.width → map_move_in_direction m (at r k) right ≡ at r 0
  unfolding map_move_in_direction
  right_wrap r k h = ground arith

  -- A set of cells that holds a cell of the board and, with each of its cells, the neighbours below
  -- and to the right, holds the whole board.
  pub torus_closed {ℓ} :
      (S : Coordinates → Type ℓ)
      → ((c : Coordinates) → Inside m c → S c → S (map_move_in_direction m c down))
      → ((c : Coordinates) → Inside m c → S c → S (map_move_in_direction m c right))
      → (c : Coordinates) → Inside m c
      → S c
      → (q : Coordinates) → Inside m q
      → S q
  torus_closed S go_down go_right c i h q j =
      cycle m.width (λ k. S (at q.row k))
        (λ k lt s. subst S (right_next q.row k lt) (go_right (at q.row k) (j.0, omega arith) s))
        (λ k e s. subst S (right_wrap q.row k e) (go_right (at q.row k) (j.0, omega arith) s))
        c.column i.1
        (cycle m.height (λ r. S (at r c.column))
          (λ r lt s.
            subst S (down_next r c.column lt) (go_down (at r c.column) (omega arith, i.1) s))
          (λ r e s. subst S (down_wrap r c.column e) (go_down (at r c.column) (omega arith, i.1) s))
          c.row i.0 h q.row j.0)
        q.column j.1
