-- ===== src/Base/Order.antt =====
-- Go's sort.Strings: the texts in ascending order of their bytes.
use Prim.Native.Nat.{◌+◌, Ordering}
use Prim.Native.String.{String, compare}
use mathlib.Core.Path.{◌≡◌, refl}
use mathlib.Core.Bool.{Bool, true, false, ◌||◌}
use mathlib.Core.List.{List, [], ◌∷◌}
use native.Mathlib.Omega.{arith}
use text.Mathlib.Text.{◌==◌ as str_eq}
use koku_metrics_operator.Base.Tests.{if◌then◌else◌}
use koku_metrics_operator.Base.Lists.{length, elem}

abbrev le_text : String → String → Bool
le_text s t = elim (compare s t) [ Ordering.gt ↦ false | _ ↦ true ]

insert_sorted : String → List String → List String
insert_sorted s [] = s ∷ []
insert_sorted s (t ∷ ts) = if le_text s t then s ∷ t ∷ ts else t ∷ insert_sorted s ts

unfoldable pub sort_texts : List String → List String
unfolding insert_sorted
sort_texts [] = []
sort_texts (s ∷ ss) = insert_sorted s (sort_texts ss)

length-insert_sorted : (s : String) (ts : List String) → length (insert_sorted s ts) ≡ length ts + 1
unfolding insert_sorted
length-insert_sorted s [] = omega arith
length-insert_sorted s (t ∷ ts) = ground (arith, length-insert_sorted s ts)

pub length-sort_texts : (ss : List String) → length (sort_texts ss) ≡ length ss
unfolding sort_texts
length-sort_texts [] = refl
length-sort_texts (s ∷ ss) =
    omega (arith, length-insert_sorted s (sort_texts ss), length-sort_texts ss)

elem-insert_sorted :
    (x s : String) (ts : List String) → elem x (insert_sorted s ts) ≡ (str_eq s x || elem x ts)
unfolding insert_sorted
elem-insert_sorted x s [] = refl
elem-insert_sorted x s (t ∷ ts) = ground (arith, elem-insert_sorted x s ts)

pub elem-sort_texts : (x : String) (ss : List String) → elem x (sort_texts ss) ≡ elem x ss
unfolding sort_texts
elem-sort_texts x [] = refl
elem-sort_texts x (s ∷ ss) =
    ground (arith, elem-insert_sorted x s (sort_texts ss), elem-sort_texts x ss)
