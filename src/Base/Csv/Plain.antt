-- ===== src/Base/Csv/Plain.antt =====
-- Fields that need no quotes: their record is their join, on one line.
use Prim.Native.Char.{code}
use Prim.Native.String.{String, [], ◌∷◌, ◌++◌}
use mathlib.Core.Path.{◌≡◌, refl, ap₂}
use mathlib.Core.Bool.{Bool, false, ◌||◌}
use mathlib.Core.List.{List, map}
use native.Mathlib.Omega.{arith}
use text.Mathlib.TextLemmas.{nil-append, cons-append}
use koku_metrics_operator.Base.Tests.{◌==◌}
use koku_metrics_operator.Base.Lists.{All}
use koku_metrics_operator.Base.Text.{join}
use koku_metrics_operator.Base.Csv.{needs_quotes, has_special, write_field, write_record, lines_of}

abbrev pub IsPlain : List String → Type 0
IsPlain = All (λ f. needs_quotes f ≡ false)

has_newline : String → Bool
has_newline [] = false
has_newline (c ∷ s) = code c == 10 || has_newline s

has_newline-append : (s t : String) → has_newline (s ++ t) ≡ (has_newline s || has_newline t)
unfolding has_newline
has_newline-append [] t = rw nil-append
has_newline-append (c ∷ s) t = rw cons-append (ground (arith, has_newline-append s t))

not_special-no_newline : (s : String) → has_special s ≡ false → has_newline s ≡ false
unfolding needs_quotes has_newline
not_special-no_newline [] h = refl
not_special-no_newline (c ∷ s) h = ground (arith, not_special-no_newline s)

plain-no_newline : (s : String) → needs_quotes s ≡ false → has_newline s ≡ false
unfolding needs_quotes
plain-no_newline [] h = unfold has_newline in refl
plain-no_newline (c ∷ s) h = not_special-no_newline (c ∷ s) (ground arith)

write_field_plain : (s : String) → needs_quotes s ≡ false → write_field s ≡ s
unfolding write_field
write_field_plain s h = rw h

map_plain : (fields : List String) → IsPlain fields → map write_field fields ≡ fields
map_plain List.[] h = refl
map_plain (List.◌∷◌ f fs) h = ap₂ List.◌∷◌ (write_field_plain f h.0) (map_plain fs h.1)

pub write_record_plain :
    (fields : List String) → IsPlain fields → write_record fields ≡ join fields ","
unfolding write_record
write_record_plain fields h = rw (map_plain fields h)

field_step :
    (f t : String)
    → has_newline f ≡ false
    → has_newline t ≡ false
    → has_newline (f ++ ("," ++ t)) ≡ false
unfolding has_newline
field_step f t hf ht = rw (has_newline-append, hf, has_newline-append) ht

join-no_newline : (fields : List String) → IsPlain fields → has_newline (join fields ",") ≡ false
unfolding join
join-no_newline List.[] h = unfold has_newline in refl
join-no_newline (List.◌∷◌ f List.[]) h = plain-no_newline f h.0
join-no_newline (List.◌∷◌ f (List.◌∷◌ g rest)) h =
    field_step f _ (plain-no_newline f h.0) (join-no_newline (List.◌∷◌ g rest) h.1)

lines_of_one : (s : String) → has_newline s ≡ false → lines_of s ≡ List.◌∷◌ s List.[]
unfolding has_newline lines_of
lines_of_one [] h = refl
lines_of_one (c ∷ s) h = ground (arith, lines_of_one s)

-- A record of plain fields is one line, the join of its fields.
pub lines_of-write_record :
    (fields : List String)
    → IsPlain fields
    → lines_of (write_record fields) ≡ List.◌∷◌ (join fields ",") List.[]
lines_of-write_record fields h =
    rw (write_record_plain fields h) (lines_of_one (join fields ",") (join-no_newline fields h))
