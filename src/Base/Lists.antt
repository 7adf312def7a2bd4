-- ===== src/Base/Lists.antt =====
-- Lists measured by the native numbers, predicates by recursion, and membership of texts.
use Prim.Native.Nat.{ℕ, zero, suc, ◌+◌, ◌-◌, ◌≤◌}
use Prim.Native.String.{String}
use mathlib.Core.Path.{◌≡◌, refl, ap}
use mathlib.Core.Bool.{Bool, false, ◌||◌, ◌&&◌, not, true}
use mathlib.Core.Option.{Option, none, some}
use mathlib.Core.List.{List, [], ◌∷◌, ◌++◌}
use native.Mathlib.Omega.{arith}
use text.Mathlib.Text.{◌==◌ as str_eq}
use text.Mathlib.TextEquality.{eq_iff}
use koku_metrics_operator.Base.Tests.{if◌then◌else◌}

module _ {ℓ} {A : Type ℓ} where
  abbrev pub length : List A → ℕ
  length [] = 0
  length (x ∷ xs) = suc (length xs)

  abbrev pub get_elem? : List A → ℕ → Option A
  get_elem? [] i = none
  get_elem? (x ∷ xs) zero = some x
  get_elem? (x ∷ xs) (suc i) = get_elem? xs i

  -- A write out of bounds changes nothing.
  abbrev pub set : List A → ℕ → A → List A
  set [] i v = []
  set (x ∷ xs) zero v = v ∷ xs
  set (x ∷ xs) (suc i) v = x ∷ set xs i v

  abbrev pub take : ℕ → List A → List A
  take zero xs = []
  take (suc n) [] = []
  take (suc n) (x ∷ xs) = x ∷ take n xs

  abbrev pub drop : ℕ → List A → List A
  drop zero xs = xs
  drop (suc n) [] = []
  drop (suc n) (x ∷ xs) = drop n xs

  abbrev pub flatten : List (List A) → List A
  flatten [] = []
  flatten (xs ∷ rest) = xs ++ flatten rest

  pub take-append : (xs ys : List A) → take (length xs) (xs ++ ys) ≡ xs
  take-append [] ys = refl
  take-append (x ∷ xs) ys = ap (λ l. x ∷ l) (take-append xs ys)

  pub take-length : (xs : List A) → take (length xs) xs ≡ xs
  take-length [] = refl
  take-length (x ∷ xs) = ap (λ l. x ∷ l) (take-length xs)

  pub length-append : (xs ys : List A) → length (xs ++ ys) ≡ length xs + length ys
  length-append [] ys = omega arith
  length-append (x ∷ xs) ys = omega (arith, length-append xs ys)

  pub length-drop : (n : ℕ) (xs : List A) → length (drop n xs) ≡ length xs - n
  length-drop zero xs = omega arith
  length-drop (suc n) [] = omega arith
  length-drop (suc n) (x ∷ xs) = omega (arith, length-drop n xs)

-- Every element satisfies the predicate.
abbrev pub All {ℓ κ} : {A : Type ℓ} → (A → Type κ) → List A → Type κ
All Q [] = Unit
All Q (a ∷ rest) = Q a × All Q rest

pub All-map {ℓ κ ι} :
    {A : Type ℓ} {P : A → Type κ} {Q : A → Type ι} (xs : List A)
    → ((x : A) → P x → Q x)
    → All P xs
    → All Q xs
All-map [] f h = tt
All-map (x ∷ xs) f h = (f x h.0, All-map xs f h.1)

-- Is the text among these?
abbrev pub elem : String → List String → Bool
elem s [] = false
elem s (x ∷ xs) = str_eq x s || elem s xs

pub elem-append : (s : String) (xs ys : List String) → elem s (xs ++ ys) ≡ (elem s xs || elem s ys)
elem-append s [] ys = refl
elem-append s (x ∷ xs) ys = ground (arith, elem-append s xs ys)

-- Does no text stand twice?
abbrev pub distinct : List String → Bool
distinct [] = true
distinct (x ∷ xs) = not (elem x xs) && distinct xs

-- The list without the text.
abbrev pub without : String → List String → List String
without v [] = []
without v (x ∷ xs) = let rest = without v xs in if str_eq x v then rest else x ∷ rest

pub elem-without :
    (v w : String) (xs : List String)
    → elem w (without v xs) ≡ (if str_eq v w then false else elem w xs)
elem-without v w [] = ground arith
elem-without v w (x ∷ xs) = ground (arith, elem-without v w xs, eq_iff x v, eq_iff x w, eq_iff v w)

pub distinct-without :
    (v : String) (xs : List String) → distinct xs ≡ true → distinct (without v xs) ≡ true
distinct-without v [] h = refl
distinct-without v (x ∷ xs) h =
    ground (arith, distinct-without v xs, elem-without v x xs, eq_iff x v, eq_iff v x)

length-without-le : (v : String) (xs : List String) → length (without v xs) ≤ length xs
length-without-le v [] = omega arith
length-without-le v (x ∷ xs) = ground (arith, length-without-le v xs)

length-without :
    (v : String) (xs : List String) → elem v xs ≡ true → length (without v xs) + 1 ≤ length xs
length-without v [] h = cc
length-without v (x ∷ xs) h =
    ground (arith, length-without v xs, length-without-le v xs, eq_iff x v)

All-without :
    (v : String) (xs ys : List String)
    → elem v xs ≡ false
    → All (λ x. elem x ys ≡ true) xs
    → All (λ x. elem x (without v ys) ≡ true) xs
All-without v [] ys n h = tt
All-without v (x ∷ xs) ys n h = (
  ground (arith, h.0, elem-without v x ys, eq_iff v x, eq_iff x v),
  All-without v xs ys (ground arith) h.1,
)

-- Different texts that all stand in a list are no more than the list is long.
pub distinct-length-le :
    (xs ys : List String)
    → distinct xs ≡ true
    → All (λ x. elem x ys ≡ true) xs
    → length xs ≤ length ys
distinct-length-le [] ys d h = omega arith
distinct-length-le (x ∷ xs) ys d h = omega (
  arith,
  length-without x ys h.0,
  distinct-length-le xs (without x ys) (ground arith) (All-without x xs ys (ground arith) h.1),
)

-- reflect.DeepEqual on what two pointers refer to.
abbrev pub same_option {ℓ} : {A : Type ℓ} → (A → A → Bool) → Option A → Option A → Bool
same_option same none none = true
same_option same (some a) (some b) = same a b
same_option same none (some b) = false
same_option same (some a) none = false
