-- ===== src/Packaging/Trim/Overlap.antt =====
-- Where one datetime to remove is a prefix of another, trimming removes a file twice and fails.
use koku_metrics_operator.Base.{
  ℕ, ◌+◌, ◌<◌, ◌≡◌, sym, subst, lt→leb, String, str_eq, eq_iff, starts_with, true, false, Option,
  none, some, List, [], ◌∷◌, elem, ok, Ensures, fails, Ensures-ok, Ensures-bind, Bool-cases, inl,
  inr, if◌then◌else◌, arith,
}
use koku_metrics_operator.Strset
use koku_metrics_operator.Packaging.Trim.{
  remove_unless, os_remove, remove_prefixed, remove_excluded, files_to_exclude, datetimes_set,
  Trimmed, trim_packages,
}
use koku_metrics_operator.Packaging.Trim.Removal.{remove_unless-elem, remove_prefixed-IsLeft}

-- A file that is gone cannot be removed.
remove_unless_gone :
    (fault : Option String) (file : String) (disk : List String)
    → elem file disk ≡ false
    → Ensures (λ _. ⊥) (remove_unless fault file disk)
unfolding remove_unless
remove_unless_gone (some e) file disk h = fails
remove_unless_gone none file disk h = rw h fails

remove_prefixed_gone :
    (fault : String → Option String) (pre f : String) (packages disk : List String)
    → elem f packages ≡ true
    → starts_with f pre ≡ true
    → elem f disk ≡ false
    → Ensures (λ _. ⊥) (remove_prefixed fault pre packages disk)
unfolding remove_prefixed os_remove
remove_prefixed_gone fault pre f [] disk m s gone = absurd (cc)
remove_prefixed_gone fault pre f (file ∷ packages) disk m s gone =
    elim (Bool-cases (starts_with file pre)) [
      | inl e ↦ rw e (elim (Bool-cases (str_eq file f)) [
        | inl same ↦
            Ensures-bind _ _
              (remove_unless_gone (fault file) file disk
                (subst (λ x. elem x disk ≡ false) (sym ((eq_iff file f).0 same)) gone))
              λ _ h. absurd h
        | inr differ ↦ Ensures-bind _ _ (remove_unless-elem (fault file) file disk) λ disk₁ h.
            remove_prefixed_gone fault pre f packages disk₁ (ground arith) s (ground (arith, h f))
      ])
      | inr e ↦
          rw e
            (remove_prefixed_gone fault pre f packages disk (ground (arith, eq_iff file f)) s gone)
    ]

-- How many of the datetimes a file name begins with.
abbrev pub prefixes_of : String → List String → ℕ
prefixes_of f [] = 0
prefixes_of f (pre ∷ excluded) = (if starts_with f pre then 1 else 0) + prefixes_of f excluded

remove_excluded_gone :
    (fault : String → Option String) (f : String) (excluded packages disk : List String)
    → elem f packages ≡ true
    → 0 < prefixes_of f excluded
    → elem f disk ≡ false
    → Ensures (λ _. ⊥) (remove_excluded fault excluded packages disk)
unfolding remove_excluded
remove_excluded_gone fault f [] packages disk m n gone = absurd (omega arith)
remove_excluded_gone fault f (pre ∷ excluded) packages disk m n gone =
    elim (Bool-cases (starts_with f pre)) [
      | inl e ↦
          Ensures-bind _ _ (remove_prefixed_gone fault pre f packages disk m e gone) λ _ h. absurd h
      | inr e ↦ Ensures-bind _ _ (remove_prefixed-IsLeft fault pre packages disk) λ disk₁ h.
          remove_excluded_gone fault f excluded packages disk₁ m (ground arith)
            (ground (arith, h.before f))
    ]

remove_excluded_twice :
    (fault : String → Option String) (f : String) (excluded packages disk : List String)
    → elem f packages ≡ true
    → 1 < prefixes_of f excluded
    → Ensures (λ _. ⊥) (remove_excluded fault excluded packages disk)
unfolding remove_excluded
remove_excluded_twice fault f [] packages disk m n = absurd (omega arith)
remove_excluded_twice fault f (pre ∷ excluded) packages disk m n =
    Ensures-bind _ _ (remove_prefixed-IsLeft fault pre packages disk) λ disk₁ h.
      elim (Bool-cases (starts_with f pre)) [
        | inl e ↦
            remove_excluded_gone fault f excluded packages disk₁ m (ground arith)
              (ground (arith, h.other f))
        | inr e ↦ remove_excluded_twice fault f excluded packages disk₁ m (ground arith)
      ]

-- If there are more packages than the limit and some stored file begins with two of the datetimes
-- that are to be removed, then trimming does not succeed: the file is removed for the first of
-- them, and its second removal fails.
pub trim_packages-overlap :
    (fault : String → Option String) (max_reports : ℕ) (packages : List String) (f : String)
    (t : Trimmed)
    → max_reports < Strset.len (datetimes_set packages)
    → elem f packages ≡ true
    → 1 < prefixes_of f (files_to_exclude max_reports packages)
    → ¬ (trim_packages fault max_reports packages ≡ ok t)
unfolding trim_packages
trim_packages-overlap fault max_reports packages f t more m n e =
    Ensures-ok {P = λ _. ⊥} (trim_packages fault max_reports packages) t
      (rw (lt→leb _ _ more, trim_packages)
        (Ensures-bind _ _
          (remove_excluded_twice fault f (files_to_exclude max_reports packages) packages packages m
            n)
          λ _ h. absurd h))
      e
