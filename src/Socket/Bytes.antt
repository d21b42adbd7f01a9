-- ===== src/Socket/Bytes.antt =====
-- Little-endian numbers of a fixed count of bytes: `htole16`, `htole32`, `htole64` with `memcpy`,
-- and `le16toh`, `le32toh`, `le64toh` of a cast pointer.
use snake_posix.Common.{
  ℕ, zero, suc, ◌+◌, ◌*◌, ◌/◌, ◌%◌, ◌<◌, ◌≡◌, refl, ap, subst, arith, List, [], ◌∷◌, ◌++◌,
}
use snake_posix.Common.{length, take, drop}

unfoldable pub le_bytes : ℕ → ℕ → List ℕ
le_bytes zero x = []
le_bytes (suc n) x = (x % 256) ∷ le_bytes n (x / 256)

unfoldable pub of_le : List ℕ → ℕ
of_le [] = 0
of_le (b ∷ bs) = b + 256 * of_le bs

-- 256 to the power of a count of bytes.
unfoldable pub byte_bound : ℕ → ℕ
byte_bound zero = 1
byte_bound (suc n) = 256 * byte_bound n

pub of_le-le_bytes : (n x : ℕ) → x < byte_bound n → of_le (le_bytes n x) ≡ x
unfolding of_le le_bytes byte_bound
of_le-le_bytes zero x h = omega arith
of_le-le_bytes (suc n) x h = omega (arith, of_le-le_bytes n (x / 256) (omega arith))

pub length-le_bytes : (n x : ℕ) → length (le_bytes n x) ≡ n
unfolding le_bytes
length-le_bytes zero x = refl
length-le_bytes (suc n) x = omega (arith, length-le_bytes n (x / 256))

take_all : (xs ys : List ℕ) → take (length xs) (xs ++ ys) ≡ xs
take_all [] ys = refl
take_all (x ∷ xs) ys = ap (λ l. x ∷ l) (take_all xs ys)

drop_all : (xs ys : List ℕ) → drop (length xs) (xs ++ ys) ≡ ys
drop_all [] ys = refl
drop_all (x ∷ xs) ys = drop_all xs ys

-- The first bytes of a buffer, and what follows them.
pub take-length : (xs ys : List ℕ) (n : ℕ) → length xs ≡ n → take n (xs ++ ys) ≡ xs
take-length xs ys n e = subst (λ k. take k (xs ++ ys) ≡ xs) e (take_all xs ys)

pub drop-length : (xs ys : List ℕ) (n : ℕ) → length xs ≡ n → drop n (xs ++ ys) ≡ ys
drop-length xs ys n e = subst (λ k. drop k (xs ++ ys) ≡ ys) e (drop_all xs ys)

pub take_self {ℓ} : {A : Type ℓ} (xs : List A) (n : ℕ) → length xs ≡ n → take n xs ≡ xs
take_self {A = A} xs n e = subst (λ k. take k xs ≡ xs) e (whole xs)
  where
    whole : (xs : List A) → take (length xs) xs ≡ xs
    whole [] = refl
    whole (x ∷ xs) = ap (λ l. x ∷ l) (whole xs)
