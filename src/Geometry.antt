-- ===== src/Geometry.antt =====
-- `libsnake/coordinates.{h,c}` and `libsnake/direction.{h,c}`.
use snake_posix.Common.{◌-◌, if◌then◌else◌, refl, ℕ, ◌+◌, ◌≡◌, ◌↔◌, arith, Bool, true, ◌&&◌, ◌==◌}

-- `coordinates_t`; a `coordinate_t` is an `unsigned int`.
pub record Coordinates : Type 0 where
  pub row : ℕ
  pub column : ℕ

unfoldable pub coordinates_equal : Coordinates → Coordinates → Bool
coordinates_equal lhs rhs = lhs.row == rhs.row && lhs.column == rhs.column

pub coordinates_equal_iff : (a b : Coordinates) → (coordinates_equal a b ≡ true) ↔ (a ≡ b)
unfolding coordinates_equal
coordinates_equal_iff a b = (ground arith, ground arith)

-- `direction_t`. `other n` is the value n + 4 of the C type: a received byte is cast to the type
-- with no check.
pub data Direction : Type 0 where
  up left down right : Direction
  other : ℕ → Direction

abbrev pub direction_code : Direction → ℕ
direction_code up = 0
direction_code left = 1
direction_code down = 2
direction_code right = 3
direction_code (other n) = n + 4

-- The value of the type with a given code: a cast to `direction_t`.
unfoldable pub direction_of_code : ℕ → Direction
direction_of_code k =
    if k == 0
    then up
    else (if k == 1
        then left
        else (if k == 2 then down else (if k == 3 then right else other (k - 4))))

pub direction_of_code-direction_code : (d : Direction) → direction_of_code (direction_code d) ≡ d
unfolding direction_of_code
direction_of_code-direction_code up = refl
direction_of_code-direction_code left = refl
direction_of_code-direction_code down = refl
direction_of_code-direction_code right = refl
direction_of_code-direction_code (other n) = ground arith

unfoldable pub direction_eq : Direction → Direction → Bool
direction_eq a b = direction_code a == direction_code b

pub direction_eq_iff : (a b : Direction) → (direction_eq a b ≡ true) ↔ (a ≡ b)
unfolding direction_eq
direction_eq_iff a b = (ground arith, ground arith)

unfoldable pub direction_get_opposite : Direction → Direction
direction_get_opposite up = down
direction_get_opposite left = right
direction_get_opposite down = up
direction_get_opposite _ = left
