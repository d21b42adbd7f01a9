-- ===== src/Common/Outcome.antt =====
-- The result of code that can end the process, run into undefined behaviour, or, in the model
-- alone, run out of fuel.
use snake_posix.Common.{◌≡◌, refl, subst}

pub data Outcome {ℓ} (A : Type ℓ) : Type ℓ where
  ok : A → Outcome A
  exit_failure : Outcome A  -- `exit(EXIT_FAILURE)`
  undefined : Outcome A  -- the read of a variable that was never set
  stuck : Outcome A  -- the fuel ran out: a loop or a recursion that goes on

infixl 5 ◌>>=◌
abbrev pub ◌>>=◌ {ℓ κ} : {A : Type ℓ} {B : Type κ} → Outcome A → (A → Outcome B) → Outcome B
ok a >>= f = f a
exit_failure >>= f = exit_failure
undefined >>= f = undefined
stuck >>= f = stuck

-- The run has no undefined behaviour and ends: in a state with the property, or by `exit`.
abbrev pub Ensures {ℓ} : {A : Type ℓ} → Outcome A → (A → Type 0) → Type 0
Ensures (ok a) P = P a
Ensures exit_failure P = Unit
Ensures undefined P = ⊥
Ensures stuck P = ⊥

pub Ensures->>= {ℓ κ} :
    {A : Type ℓ} {B : Type κ} (m : Outcome A) (f : A → Outcome B) (P : A → Type 0) (Q : B → Type 0)
    → Ensures m P
    → ((a : A) → P a → Ensures (f a) Q)
    → Ensures (m >>= f) Q
Ensures->>= (ok a) f P Q h k = k a h
Ensures->>= exit_failure f P Q h k = tt
Ensures->>= undefined f P Q h k = absurd h
Ensures->>= stuck f P Q h k = absurd h

pub Ensures-mono {ℓ} :
    {A : Type ℓ} (m : Outcome A) (P Q : A → Type 0)
    → Ensures m P
    → ((a : A) → P a → Q a)
    → Ensures m Q
Ensures-mono (ok a) P Q h k = k a h
Ensures-mono exit_failure P Q h k = tt
Ensures-mono undefined P Q h k = absurd h
Ensures-mono stuck P Q h k = absurd h

pub Ensures-both {ℓ} :
    {A : Type ℓ} (m : Outcome A) (P Q : A → Type 0)
    → Ensures m P
    → Ensures m Q
    → Ensures m (λ a. P a × Q a)
Ensures-both (ok a) P Q h k = (h, k)
Ensures-both exit_failure P Q h k = tt
Ensures-both undefined P Q h k = absurd h
Ensures-both stuck P Q h k = absurd h

pub Ensures-ok :
    {A : Type 0} (m : Outcome A) (P : A → Type 0) (a : A) → m ≡ ok a → Ensures m P → P a
Ensures-ok m P a e h = subst (λ n. Ensures n P) e h

-- The run ends, and not by `exit`, in a state with the property.
abbrev pub Returns {ℓ} : {A : Type ℓ} → Outcome A → (A → Type 0) → Type 0
Returns (ok a) P = P a
Returns exit_failure P = ⊥
Returns undefined P = ⊥
Returns stuck P = ⊥

pub Returns->>= {ℓ κ} :
    {A : Type ℓ} {B : Type κ} (m : Outcome A) (f : A → Outcome B) (P : A → Type 0) (Q : B → Type 0)
    → Returns m P
    → ((a : A) → P a → Returns (f a) Q)
    → Returns (m >>= f) Q
Returns->>= (ok a) f P Q h k = k a h
Returns->>= exit_failure f P Q h k = absurd h
Returns->>= undefined f P Q h k = absurd h
Returns->>= stuck f P Q h k = absurd h

pub Returns-mono {ℓ} :
    {A : Type ℓ} (m : Outcome A) (P Q : A → Type 0)
    → Returns m P
    → ((a : A) → P a → Q a)
    → Returns m Q
Returns-mono (ok a) P Q h k = k a h
Returns-mono exit_failure P Q h k = absurd h
Returns-mono undefined P Q h k = absurd h
Returns-mono stuck P Q h k = absurd h

-- The state that a run ends in.
pub Returns-ok :
    {A : Type 0} (m : Outcome A) (P : A → Type 0) → Returns m P → (a : A) × (m ≡ ok a) × P a
Returns-ok (ok a) P h = (a, refl, h)
Returns-ok exit_failure P h = absurd h
Returns-ok undefined P h = absurd h
Returns-ok stuck P h = absurd h
