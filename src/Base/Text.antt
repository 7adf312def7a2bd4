-- ===== src/Base/Text.antt =====
-- What the sources use of Go's `strings` and `path/filepath`, on texts as lists of characters.
use Prim.Native.Char.{Char, code}
use Prim.Native.String.{String, [], ◌∷◌, ◌++◌, len, slice}
use mathlib.Core.Bool.{Bool, true, false, ◌||◌}
use mathlib.Core.List.{List}
use mathlib.Core.Option.{Option, none, some}
use text.Mathlib.Text.{◌==◌, starts_with, find?}
use text.Mathlib.TextBridge.{IsPrefix}
use text.Mathlib.TextLemmas.{nil-append, cons-append}
use mathlib.Core.Path.{◌∙◌, ap}
use mathlib.Core.Logic.{inl, inr}
use koku_metrics_operator.Base.Tests.{Bool-cases}
use Prim.Native.Nat.{compare, Ordering, ◌+◌}

abbrev pub same_char : Char → Char → Bool
same_char c d = elim (compare (code c) (code d)) [ Ordering.eq ↦ true | _ ↦ false ]

-- strings.HasSuffix
unfoldable pub has_suffix : String → String → Bool
has_suffix [] t = [] == t
has_suffix (c ∷ s) t = (c ∷ s) == t || has_suffix s t

-- strings.Contains
unfoldable pub contains : String → String → Bool
contains [] t = starts_with [] t
contains (c ∷ s) t = starts_with (c ∷ s) t || contains s t

-- strings.TrimSuffix: what is left of the place where the rest equals the suffix.
unfoldable pub trim_suffix : String → String → String
trim_suffix [] t = []
trim_suffix (c ∷ s) t =
    let rest = trim_suffix s t in elim ((c ∷ s) == t) [ true ↦ [] | false ↦ c ∷ rest ]

-- strings.Join
unfoldable pub join : List String → String → String
join List.[] sep = []
join (List.◌∷◌ s List.[]) sep = s
join (List.◌∷◌ s (List.◌∷◌ t rest)) sep = s ++ (sep ++ join (List.◌∷◌ t rest) sep)

-- The first piece of strings.Split: the text before the first separator.
unfoldable pub first_piece : String → Char → String
first_piece [] sep = []
first_piece (c ∷ s) sep =
    let rest = first_piece s sep in elim (same_char c sep) [ true ↦ [] | false ↦ c ∷ rest ]

pub first_piece-IsPrefix : (s : String) (sep : Char) → IsPrefix (first_piece s sep) s
unfolding first_piece
first_piece-IsPrefix [] sep = ([], nil-append [])
first_piece-IsPrefix (c ∷ s) sep = elim (Bool-cases (same_char c sep)) [
  | inl e ↦ rw (e, first_piece) (c ∷ s, nil-append (c ∷ s))
  | inr e ↦
      let (u, p) = first_piece-IsPrefix s sep in
      rw (e, first_piece) (u, cons-append c (first_piece s sep) u ∙ ap (λ t. c ∷ t) p)
]

-- The last piece of strings.Split: the text behind the last separator.
last_piece_from : String → String → Char → String
last_piece_from best [] sep = best
last_piece_from best (c ∷ s) sep = elim (same_char c sep) [
  | true ↦ last_piece_from s s sep
  | false ↦ last_piece_from best s sep
]

unfoldable pub last_piece : String → Char → String
unfolding last_piece_from
last_piece s sep = last_piece_from s s sep

-- filepath.Join of a clean directory and a file name
abbrev pub join_path : String → String → String
join_path dir name = dir ++ ("/" ++ name)

-- What follows the first occurrence of a text: the second piece of strings.SplitN with two pieces.
unfoldable pub after : String → String → Option String
after s t = elim (find? s t) [ none ↦ none | some i ↦ some (slice s (i + len t) (len s)) ]
