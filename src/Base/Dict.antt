-- ===== src/Base/Dict.antt =====
-- Go's maps with text keys, as association lists. Iteration goes over the entries in some order.
use Prim.Native.String.{String}
use mathlib.Core.Path.{◌≡◌, refl}
use mathlib.Core.Logic.{inl, inr}
use mathlib.Core.Option.{Option, none, some}
use mathlib.Core.List.{List, [], ◌∷◌}
use native.Mathlib.Omega.{arith}
use text.Mathlib.Text.{◌==◌ as str_eq}
use text.Mathlib.TextEquality.{eq_iff}
use koku_metrics_operator.Base.Tests.{if◌then◌else◌, Bool-cases}

module _ {ℓ} {V : Type ℓ} where
  unfoldable pub lookup : String → List (String × V) → Option V
  lookup wanted [] = none
  lookup wanted (entry ∷ rest) =
      let further = lookup wanted rest in if str_eq entry.0 wanted then some entry.1 else further

  -- `m[key] = value`
  unfoldable pub insert : String → V → List (String × V) → List (String × V)
  insert key value [] = (key, value) ∷ []
  insert key value (entry ∷ rest) =
      let further = insert key value rest in
      if str_eq entry.0 key then (key, value) ∷ rest else entry ∷ further

  pub lookup-insert :
      (key wanted : String) (value : V) (entries : List (String × V))
      → lookup wanted (insert key value entries)
        ≡ (if str_eq key wanted then some value else lookup wanted entries)
  unfolding lookup insert
  lookup-insert key wanted value [] = refl
  lookup-insert key wanted value (entry ∷ rest) =
      let further = lookup-insert key wanted value rest in
      elim (Bool-cases (str_eq entry.0 key)) [
        | inl same ↦
            rw (same, lookup)
              (ground (arith, same, eq_iff entry.0 key, eq_iff entry.0 wanted, eq_iff key wanted))
        | inr other ↦
            rw (other, lookup)
              (ground (
                arith,
                other,
                further,
                eq_iff entry.0 key,
                eq_iff entry.0 wanted,
                eq_iff key wanted,
              ))
      ]
