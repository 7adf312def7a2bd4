-- ===== src/Strset.antt =====
-- internal/strset/strset.go: a set of texts. The Go map is the list of its keys, each once; `Range`
-- sends them in an order that the program does not choose.
pub mod Laws
use koku_metrics_operator.Base.{
  ℕ, String, str_eq, Bool, List, [], ◌∷◌, length, elem, without, if◌then◌else◌,
}

pub record Set : Type 0 where
  pub m : List String

unfoldable pub new_set : Set
new_set = record { m = [] }

unfoldable pub add : Set → String → Set
add s v = if elem v s.m then s else record { m = v ∷ s.m }

unfoldable pub remove : Set → String → Set
remove s v = record { m = without v s.m }

unfoldable pub contains : Set → String → Bool
contains s v = elem v s.m

unfoldable pub len : Set → ℕ
len s = length s.m

unfoldable pub range : Set → List String
range s = s.m
