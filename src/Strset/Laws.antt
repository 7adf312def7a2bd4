-- ===== src/Strset/Laws.antt =====
-- The set behaves as a characteristic function, and its length counts every element once.
use koku_metrics_operator.Base.{
  ◌+◌, ◌≡◌, refl, ap, ◌∙◌, String, str_eq, eq_iff, Bool, true, false, List, [], ◌∷◌, distinct,
  elem-without, distinct-without, arith, if◌then◌else◌,
}
use koku_metrics_operator.Strset.{Set, new_set, add, remove, contains, len, range}

pub contains-new_set : (w : String) → contains new_set w ≡ false
unfolding contains new_set
contains-new_set w = refl

pub contains-add :
    (s : Set) (v w : String) → contains (add s v) w ≡ (if str_eq v w then true else contains s w)
unfolding contains add
contains-add s v w = ground (arith, eq_iff v w)

pub contains-remove :
    (s : Set) (v w : String)
    → contains (remove s v) w ≡ (if str_eq v w then false else contains s w)
unfolding contains remove
contains-remove s v w = elem-without v w s.m

pub ruleset set_laws = (contains-new_set, contains-add, contains-remove)

-- No element stands twice among the keys.
pub record IsValid (s : Set) : Type 0 where
  pub once : distinct s.m ≡ true

pub new_set-IsValid : IsValid new_set
unfolding new_set
new_set-IsValid = record { once = refl }

pub add-IsValid : (s : Set) (v : String) → IsValid s → IsValid (add s v)
unfolding add
add-IsValid s v h = ground arith

pub remove-IsValid : (s : Set) (v : String) → IsValid s → IsValid (remove s v)
unfolding remove
remove-IsValid s v h = record { once = distinct-without v s.m h.once }

pub data Op : Type 0 where
  adding removing : String → Op

abbrev pub run : List Op → Set → Set
run [] s = s
run (adding v ∷ ops) s = run ops (add s v)
run (removing v ∷ ops) s = run ops (remove s v)

-- The abstract set: what it says of each text.
abbrev pub spec : List Op → (String → Bool) → String → Bool
spec [] f = f
spec (adding v ∷ ops) f = spec ops (λ w. if str_eq v w then true else f w)
spec (removing v ∷ ops) f = spec ops (λ w. if str_eq v w then false else f w)

pub run-IsValid : (ops : List Op) (s : Set) → IsValid s → IsValid (run ops s)
run-IsValid [] s h = h
run-IsValid (adding v ∷ ops) s h = run-IsValid ops (add s v) (add-IsValid s v h)
run-IsValid (removing v ∷ ops) s h = run-IsValid ops (remove s v) (remove-IsValid s v h)

spec-cong :
    (ops : List Op) (f g : String → Bool)
    → ((w : String) → f w ≡ g w)
    → (w : String) → spec ops f w ≡ spec ops g w
spec-cong [] f g h w = h w
spec-cong (adding v ∷ ops) f g h w =
    spec-cong ops _ _ (λ u. ap (λ b. if str_eq v u then true else b) (h u)) w
spec-cong (removing v ∷ ops) f g h w =
    spec-cong ops _ _ (λ u. ap (λ b. if str_eq v u then false else b) (h u)) w

contains-run :
    (ops : List Op) (s : Set) (w : String) → contains (run ops s) w ≡ spec ops (contains s) w
contains-run [] s w = refl
contains-run (adding v ∷ ops) s w =
    contains-run ops (add s v) w ∙ spec-cong ops _ _ (contains-add s v) w
contains-run (removing v ∷ ops) s w =
    contains-run ops (remove s v) w ∙ spec-cong ops _ _ (contains-remove s v) w

-- After any additions and removals from a new set, `Contains` answers as the abstract set does,
-- and `Range` sends no element twice.
pub run-spec_and_once :
    (ops : List Op)
    → ((w : String) → contains (run ops new_set) w ≡ spec ops (λ _. false) w)
      × (distinct (range (run ops new_set)) ≡ true)
unfolding range
run-spec_and_once ops = (
  λ w. contains-run ops new_set w ∙ spec-cong ops _ _ contains-new_set w,
  (run-IsValid ops new_set new_set-IsValid).once,
)

-- `Len` grows by one exactly when the added text is new.
pub len-add : (s : Set) (v : String) → len (add s v) ≡ (if contains s v then len s else len s + 1)
unfolding len add contains
len-add s v = ground arith
