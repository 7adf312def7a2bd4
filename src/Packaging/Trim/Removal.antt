-- ===== src/Packaging/Trim/Removal.antt =====
-- What the loops of TrimPackages of internal/packaging/packaging.go remove.
use text.Mathlib.TextPositions.{starts_with_of_prefix}
use koku_metrics_operator.Base.{
  ◌≡◌, String, str_eq, eq_iff, starts_with, Bool, true, false, ◌||◌, ◌&&◌, Option, none, some, List,
  [], ◌∷◌, elem, elem-without, All, Ensures, returns, fails, Ensures-bind, Ensures-map, Bool-cases,
  inl, inr, if◌then◌else◌, arith,
}
use koku_metrics_operator.Base.Text.{first_piece-IsPrefix}
use koku_metrics_operator.Strset
use koku_metrics_operator.Strset.{Set, add, new_set, range}
use koku_metrics_operator.Strset.Laws.{
  IsValid, add-IsValid, new_set-IsValid, contains-add, contains-new_set,
}
use koku_metrics_operator.Packaging.Trim.{
  datetime, is_package, add_datetimes, datetimes_set, remove_unless, os_remove, remove_prefixed,
  remove_excluded,
}

pub datetime-starts : (f : String) → starts_with f (datetime f) ≡ true
unfolding datetime
datetime-starts f = starts_with_of_prefix _ f (first_piece-IsPrefix f "-")

add_datetimes-IsValid : (s : Set) (fs : List String) → IsValid s → IsValid (add_datetimes s fs)
unfolding add_datetimes
add_datetimes-IsValid s [] h = h
add_datetimes-IsValid s (f ∷ fs) h = elim (Bool-cases (is_package f)) [
  | inl e ↦ rw e (add_datetimes-IsValid (add s (datetime f)) fs (add-IsValid s (datetime f) h))
  | inr e ↦ rw e (add_datetimes-IsValid s fs h)
]

pub datetimes_set-IsValid : (fs : List String) → IsValid (datetimes_set fs)
unfolding datetimes_set
datetimes_set-IsValid fs = add_datetimes-IsValid new_set fs new_set-IsValid

-- The texts of a list that pass a test, seen through a function.
abbrev pub some_package : String → List String → Bool
some_package d [] = false
some_package d (f ∷ fs) = (is_package f && str_eq (datetime f) d) || some_package d fs

contains-add_datetimes :
    (s : Set) (fs : List String) (d : String)
    → Strset.contains (add_datetimes s fs) d ≡ (Strset.contains s d || some_package d fs)
unfolding add_datetimes
contains-add_datetimes s [] d = ground arith
contains-add_datetimes s (f ∷ fs) d = ground (
  arith,
  contains-add_datetimes s fs d,
  contains-add_datetimes (add s (datetime f)) fs d,
  contains-add s (datetime f) d,
)

-- The set has exactly the datetimes of the packages.
pub contains-datetimes_set :
    (fs : List String) (d : String) → Strset.contains (datetimes_set fs) d ≡ some_package d fs
unfolding datetimes_set
contains-datetimes_set fs d = rw (contains-add_datetimes new_set fs d, contains-new_set d)

pub some_package-elem :
    (f : String) (fs : List String)
    → elem f fs ≡ true
    → is_package f ≡ true
    → some_package (datetime f) fs ≡ true
some_package-elem f [] h p = cc
some_package-elem f (g ∷ gs) h p =
    ground (arith, some_package-elem f gs, eq_iff g f, eq_iff (datetime g) (datetime f))

pub remove_unless-elem :
    (fault : Option String) (file : String) (disk : List String)
    → Ensures
        (λ disk'. (x : String) → elem x disk' ≡ (if str_eq file x then false else elem x disk))
        (remove_unless fault file disk)
unfolding remove_unless
remove_unless-elem (some e) file disk = fails
remove_unless-elem none file disk = elim (Bool-cases (elem file disk)) [
  | inl e ↦ rw e (returns (λ x. elem-without file x disk))
  | inr e ↦ rw e fails
]

-- What a removal by prefix leaves was there before, and of the names that were read it has none
-- that begins with the prefix.
pub record IsLeft (pre : String) (packages disk disk' : List String) : Type 0 where
  pub before : (x : String) → elem x disk' ≡ true → elem x disk ≡ true
  pub other :
      (x : String) → elem x packages ≡ true → elem x disk' ≡ true → starts_with x pre ≡ false

IsLeft-step :
    (pre file : String) (packages disk disk₁ disk₂ : List String)
    → ((x : String) → elem x disk₁ ≡ (if str_eq file x then false else elem x disk))
    → IsLeft pre packages disk₁ disk₂
    → IsLeft pre (file ∷ packages) disk disk₂
IsLeft-step pre file packages disk disk₁ disk₂ h k = record {
  before = λ x e. ground (arith, h x, k.before x);
  other = λ x m e. ground (arith, h x, k.before x, k.other x);
}

IsLeft-skip :
    (pre file : String) (packages disk disk' : List String)
    → starts_with file pre ≡ false
    → IsLeft pre packages disk disk'
    → IsLeft pre (file ∷ packages) disk disk'
IsLeft-skip pre file packages disk disk' h k = record {
  before = k.before;
  other = λ x m e. ground (arith, h, k.other x, eq_iff file x);
}

pub remove_prefixed-IsLeft :
    (fault : String → Option String) (pre : String) (packages disk : List String)
    → Ensures (IsLeft pre packages disk) (remove_prefixed fault pre packages disk)
unfolding remove_prefixed os_remove
remove_prefixed-IsLeft fault pre [] disk =
    returns (record { before = λ x e. e; other = λ x m e. cc })
remove_prefixed-IsLeft fault pre (file ∷ packages) disk =
    let ih = λ (d : List String). remove_prefixed-IsLeft fault pre packages d in
    elim (Bool-cases (starts_with file pre)) [
      | inl e ↦ rw e (
          Ensures-bind _ _ (remove_unless-elem (fault file) file disk) λ disk₁ h.
            Ensures-map _ (ih disk₁) λ disk₂ k. IsLeft-step pre file packages disk disk₁ disk₂ h k)
      | inr e ↦
          rw e (Ensures-map _ (ih disk) λ disk' k. IsLeft-skip pre file packages disk disk' e k)
    ]

-- After the outer loop: no file of the list begins with an excluded datetime.
pub record IsTrimmed (excluded packages disk disk' : List String) : Type 0 where
  pub before : (x : String) → elem x disk' ≡ true → elem x disk ≡ true
  pub other :
      (x : String)
      → elem x packages ≡ true
      → elem x disk' ≡ true
      → All (λ pre. starts_with x pre ≡ false) excluded

pub remove_excluded-IsTrimmed :
    (fault : String → Option String) (excluded packages disk : List String)
    → Ensures (IsTrimmed excluded packages disk) (remove_excluded fault excluded packages disk)
unfolding remove_excluded
remove_excluded-IsTrimmed fault [] packages disk =
    returns (record { before = λ x e. e; other = λ x m e. tt })
remove_excluded-IsTrimmed fault (pre ∷ excluded) packages disk =
    let ih = λ (d : List String). remove_excluded-IsTrimmed fault excluded packages d in
    Ensures-bind _ _ (remove_prefixed-IsLeft fault pre packages disk) λ disk₁ h.
      Ensures-map _ (ih disk₁) λ disk₂ k. record {
        before = λ x e. h.before x (k.before x e);
        other = λ x m e. (h.other x m (k.before x e), k.other x m e);
      }
