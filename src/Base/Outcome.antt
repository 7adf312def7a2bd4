-- ===== src/Base/Outcome.antt =====
-- Go's pair of a value and an error, as a result; `E` is what the caller can tell of the error.
use mathlib.Core.Path.{◌≡◌, subst}

pub data Result {ℓ κ} (E : Type ℓ) (A : Type κ) : Type (ℓ ⊔ κ) where
  ok : A → Result E A
  err : E → Result E A

infixl 5 ◌>>=◌ ◌>>◌
abbrev pub ◌>>=◌ {ℓ κ ι} :
    {E : Type ℓ} {A : Type κ} {B : Type ι} → Result E A → (A → Result E B) → Result E B
ok a >>= f = f a
err e >>= f = err e

abbrev pub ◌>>◌ {ℓ ι} : {E : Type ℓ} {B : Type ι} → Result E (Unit {0}) → Result E B → Result E B
m >> k = m >>= λ _. k

-- `return fmt.Errorf("…: %v", err)`: the error is wrapped and a value passes.
abbrev pub wrap_error {ℓ κ ι} :
    {E : Type ℓ} {F : Type κ} {A : Type ι} → (E → F) → Result E A → Result F A
wrap_error f (ok a) = ok a
wrap_error f (err e) = err (f e)

-- What a result holds satisfies `P`, if there is no error.
pub data Ensures {ℓ κ ι} {E : Type ℓ} {A : Type κ} (P : A → Type ι)
    : Result E A → Type (ℓ ⊔ κ ⊔ ι) where
  returns : {a : A} → P a → Ensures P (ok a)
  fails : {e : E} → Ensures P (err e)

module _ {ℓ κ ι} {E : Type ℓ} {A : Type κ} {P : A → Type ι} where
  pub returned : {a : A} → Ensures {E = E} P (ok a) → P a
  returned (returns h) = h

  pub Ensures-ok : (m : Result E A) (a : A) → Ensures P m → m ≡ ok a → P a
  Ensures-ok m a h e = returned (subst (Ensures P) e h)

  pub Ensures-all : (m : Result E A) → ((a : A) → P a) → Ensures P m
  Ensures-all (ok a) f = returns (f a)
  Ensures-all (err e) f = fails

  pub Ensures-bind {ο υ} :
      {B : Type ο} {Q : B → Type υ} (m : Result E A) (f : A → Result E B)
      → Ensures P m
      → ((a : A) → P a → Ensures Q (f a))
      → Ensures Q (m >>= f)
  Ensures-bind (ok a) f (returns h) k = k a h
  Ensures-bind (err e) f h k = fails

  pub Ensures-map {ο} :
      {Q : A → Type ο} (m : Result E A) → Ensures P m → ((a : A) → P a → Q a) → Ensures Q m
  Ensures-map (ok a) (returns h) f = returns (f a h)
  Ensures-map (err e) h f = fails

-- A step whose value is not used.
pub Ensures-then {ℓ ο υ} :
    {E : Type ℓ} {B : Type ο} {Q : B → Type υ} (m : Result E (Unit {0})) (n : Result E B)
    → Ensures Q n
    → Ensures Q (m >> n)
Ensures-then (ok _) n h = h
Ensures-then (err e) n h = fails

pub Ensures-both {ℓ κ ι ο} :
    {E : Type ℓ} {A : Type κ} {P : A → Type ι} {Q : A → Type ο} (m : Result E A)
    → Ensures P m
    → Ensures Q m
    → Ensures (λ a. P a × Q a) m
Ensures-both (ok a) (returns h) (returns k) = returns (h, k)
Ensures-both (err e) h k = fails
