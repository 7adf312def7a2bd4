-- ===== src/Base/Csv.antt =====
-- The writer of Go's encoding/csv with its default settings, and lines as bufio.Scanner reads them.
pub mod Plain
use Prim.Native.Char.{Char, code}
use Prim.Native.Nat.{ℕ}
use Prim.Native.String.{String, [], ◌∷◌, ◌++◌}
use mathlib.Core.Bool.{Bool, true, false, ◌&&◌, ◌||◌}
use mathlib.Core.List.{List, map}
use mathlib.Core.List
use text.Mathlib.Text.{◌==◌ as str_eq}
use koku_metrics_operator.Base.Tests.{leb, ◌==◌, if◌then◌else◌}
use koku_metrics_operator.Base.Text.{join}

-- unicode.IsSpace
is_space : ℕ → Bool
is_space c =
    leb 9 c && leb c 13
    || c == 32
    || c == 0x85
    || c == 0xa0
    || c == 0x1680
    || leb 0x2000 c && leb c 0x200a
    || c == 0x2028
    || c == 0x2029
    || c == 0x202f
    || c == 0x205f
    || c == 0x3000

-- A comma, a quote, a line feed or a carriage return.
is_special : ℕ → Bool
is_special c = c == 44 || c == 34 || c == 10 || c == 13

has_special : String → Bool
has_special [] = false
has_special (c ∷ s) = is_special (code c) || has_special s

-- fieldNeedsQuotes: an empty field needs none, `\.` does.
unfoldable pub needs_quotes : String → Bool
unfolding is_space is_special has_special
needs_quotes [] = false
needs_quotes (c ∷ s) = str_eq (c ∷ s) "\\." || has_special (c ∷ s) || is_space (code c)

double_quotes : String → String
double_quotes [] = []
double_quotes (c ∷ s) = if code c == 34 then c ∷ c ∷ double_quotes s else c ∷ double_quotes s

unfoldable pub write_field : String → String
unfolding needs_quotes double_quotes
write_field s = if needs_quotes s then "\"" ++ (double_quotes s ++ "\"") else s

-- The record as `Write` puts it out, without the line feed at its end.
unfoldable pub write_record : List String → String
unfolding write_field join
write_record fields = join (map write_field fields) ","

-- The lines of a text that a line feed ends: a quoted field may hold line feeds of its own.
unfoldable pub lines_of : String → List String
lines_of [] = List.◌∷◌ [] List.[]
lines_of (c ∷ s) = elim (code c == 10) [
  | true ↦ List.◌∷◌ [] (lines_of s)
  | false ↦ elim (lines_of s) [
    | List.[] ↦ List.◌∷◌ (c ∷ []) List.[]
    | List.◌∷◌ l ls ↦ List.◌∷◌ (c ∷ l) ls
  ]
]
