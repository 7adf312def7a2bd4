-- ===== src/Base/Split.antt =====
-- Go's strings.Split with a separator that is not empty, and strings.Repeat of one character.
use Prim.Native.Nat.{ℕ, zero, suc, ◌-◌}
use Prim.Native.Char.{Char, code}
use Prim.Native.String.{String, [], ◌∷◌, ◌++◌, count}
use mathlib.Core.Path.{◌≡◌, refl, ap, sym, ◌∙◌, subst}
use mathlib.Core.Bool.{Bool, true, false}
use mathlib.Core.Logic.{inl, inr}
use mathlib.Core.List.{List}
use native.Mathlib.Omega.{arith}
use text.Mathlib.Text.{starts_with}
use text.Mathlib.TextEquality.{starts_with_iff}
use text.Mathlib.TextLemmas.{
  nil-append, cons-append, length-nil, length-cons, head-eq_of_cons-eq, prefix-append,
}
use text.Mathlib.TextPositions.{starts_with_of_prefix}
use koku_metrics_operator.Base.Tests.{Bool-cases, ◌==◌}
use koku_metrics_operator.Base.Text.{join}
use koku_metrics_operator.Base.Lists.{All}

-- The character in front of the first piece.
abbrev pub cons_first : Char → List String → List String
cons_first c List.[] = List.◌∷◌ (c ∷ []) List.[]
cons_first c (List.◌∷◌ piece pieces) = List.◌∷◌ (c ∷ piece) pieces

-- The pieces of what follows so many characters, which are the rest of a separator.
unfoldable pub split_from : ℕ → String → String → List String
split_from skip [] sep = List.◌∷◌ [] List.[]
split_from (suc skip) (c ∷ s) sep = split_from skip s sep
split_from zero (c ∷ s) sep = elim (starts_with (c ∷ s) sep) [
  | true ↦ List.◌∷◌ [] (split_from (count sep - 1) s sep)
  | false ↦ cons_first c (split_from zero s sep)
]

unfoldable pub split : String → String → List String
unfolding split_from
split s sep = split_from zero s sep

-- strings.Repeat("*", n)
unfoldable pub stars : ℕ → String
stars zero = ""
stars (suc n) = "*" ++ stars n

-- The text has no such character.
unfoldable pub lacks : Char → String → Bool
lacks c [] = true
lacks c (d ∷ s) = elim (code c == code d) [ true ↦ false | false ↦ lacks c s ]

module _ (c : Char) (r : String) where
  starts-other :
      (d : Char) (s : String) → (code c == code d) ≡ false → starts_with (d ∷ s) (c ∷ r) ≡ false
  starts-other d s other = elim (Bool-cases (starts_with (d ∷ s) (c ∷ r))) [
    | inr e ↦ e
    | inl e ↦
        let (u, p) = (starts_with_iff (d ∷ s) (c ∷ r)).0 e in
        let same : c ≡ d = head-eq_of_cons-eq (sym (cons-append c r u) ∙ p) in
        ground (arith, other, ap code same)
  ]

  split_from-skip :
      (a t : String) → split_from (count a) (a ++ t) (c ∷ r) ≡ split_from zero t (c ∷ r)
  unfolding split_from
  split_from-skip [] t = rw (length-nil, nil-append t) refl
  split_from-skip (d ∷ a) t = rw (length-cons d a, cons-append d a t) (split_from-skip a t)

  pub split_from-other :
      (d : Char) (s : String)
      → (code c == code d) ≡ false
      → split_from zero (d ∷ s) (c ∷ r) ≡ cons_first d (split_from zero s (c ∷ r))
  unfolding split_from
  split_from-other d s other = rw (starts-other d s other, split_from) refl

  pub split_from-sep :
      (t : String)
      → split_from zero ((c ∷ r) ++ t) (c ∷ r) ≡ List.◌∷◌ [] (split_from zero t (c ∷ r))
  unfolding split_from
  split_from-sep t =
      let starts : starts_with (c ∷ (r ++ t)) (c ∷ r) ≡ true =
        subst (λ s. starts_with s (c ∷ r) ≡ true) (cons-append c r t)
          (starts_with_of_prefix (c ∷ r) ((c ∷ r) ++ t) (prefix-append (c ∷ r) t)) in
      let left : count (c ∷ r) - 1 ≡ count r = omega (arith, length-cons c r) in
      rw (cons-append c r t)
        (rw (starts, split_from) (rw left (ap (λ l. List.◌∷◌ [] l) (split_from-skip r t))))

  -- A piece without the separator's first character is split off whole.
  split_from-piece :
      (p t : String)
      → lacks c p ≡ true
      → split_from zero (p ++ ((c ∷ r) ++ t)) (c ∷ r) ≡ List.◌∷◌ p (split_from zero t (c ∷ r))
  unfolding lacks
  split_from-piece [] t h = rw (nil-append ((c ∷ r) ++ t)) (split_from-sep t)
  split_from-piece (d ∷ p) t h = elim (Bool-cases (code c == code d)) [
    | inl e ↦ ground (arith, h, e)
    | inr e ↦
        let ih = split_from-piece p t (ground (arith, h, e)) in
        rw (cons-append d p ((c ∷ r) ++ t))
          (split_from-other d (p ++ ((c ∷ r) ++ t)) e ∙ ap (cons_first d) ih)
  ]

  pub split_from-last :
      (p : String) → lacks c p ≡ true → split_from zero p (c ∷ r) ≡ List.◌∷◌ p List.[]
  unfolding lacks split_from
  split_from-last [] h = refl
  split_from-last (d ∷ p) h = elim (Bool-cases (code c == code d)) [
    | inl e ↦ ground (arith, h, e)
    | inr e ↦ split_from-other d p e ∙ ap (cons_first d) (split_from-last p (ground (arith, h, e)))
  ]

  -- Splitting what was joined gives the pieces again, if none has the separator's first character.
  pub split-join :
      (p : String) (ps : List String)
      → All (λ s. lacks c s ≡ true) (List.◌∷◌ p ps)
      → split (join (List.◌∷◌ p ps) (c ∷ r)) (c ∷ r) ≡ List.◌∷◌ p ps
  unfolding split join
  split-join p List.[] h = split_from-last p h.0
  split-join p (List.◌∷◌ q ps) h =
      split_from-piece p (join (List.◌∷◌ q ps) (c ∷ r)) h.0
      ∙ ap (λ l. List.◌∷◌ p l) (split-join q ps h.1)
