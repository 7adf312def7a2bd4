-- ===== src/Packaging/Trim/Limit.antt =====
-- After trimming no more packages are stored than the limit allows.
use native.Mathlib.Nat.{le_trans}
use koku_metrics_operator.Base.{
  ℕ, zero, suc, ◌-◌, ◌≤◌, ◌≡◌, refl, ◌∙◌, sym, String, eq_iff, starts_with, true, false, ◌||◌,
  Option, List, [], ◌∷◌, length, take, drop, elem, distinct-length-le, length-drop, All, leb,
  leb→le, ok, Ensures, returns, Ensures-ok, Ensures-bind, Bool-cases, inl, inr, arith,
}
use koku_metrics_operator.Base.Order.{sort_texts, elem-sort_texts}
use koku_metrics_operator.Strset
use koku_metrics_operator.Strset.{Set, add, new_set, range}
use koku_metrics_operator.Packaging.Trim.{
  datetime, is_package, datetimes_set, files_to_exclude, Trimmed, trim_packages,
}
use koku_metrics_operator.Packaging.Trim.Removal.{
  datetime-starts, datetimes_set-IsValid, some_package, contains-datetimes_set, some_package-elem,
  IsTrimmed, remove_excluded-IsTrimmed,
}

exclusion_applies :
    (d x : String) (ds : List String)
    → elem d ds ≡ true
    → starts_with x d ≡ true
    → All (λ pre. starts_with x pre ≡ false) ds
    → ⊥
exclusion_applies d x [] m s h = cc
exclusion_applies d x (e ∷ ds) m s h =
    ground (arith, h.0, exclusion_applies d x ds, h.1, eq_iff e d)

elem-take-drop :
    (d : String) (n : ℕ) (ds : List String) → elem d ds ≡ (elem d (take n ds) || elem d (drop n ds))
elem-take-drop d zero ds = refl
elem-take-drop d (suc n) [] = refl
elem-take-drop d (suc n) (e ∷ ds) = ground (arith, elem-take-drop d n ds)

at_elem :
    (xs ys : List String)
    → ((d : String) → elem d xs ≡ true → elem d ys ≡ true)
    → All (λ d. elem d ys ≡ true) xs
at_elem [] ys f = tt
at_elem (x ∷ xs) ys f =
    (f x (ground (arith, eq_iff x x)), at_elem xs ys (λ d e. f d (ground arith)))

datetimes_among :
    (fs ys : List String)
    → ((x : String) → elem x fs ≡ true → is_package x ≡ true → elem (datetime x) ys ≡ true)
    → (d : String) → some_package d fs ≡ true
    → elem d ys ≡ true
datetimes_among [] ys f d h = cc
datetimes_among (x ∷ fs) ys f d h = ground (
  arith,
  f x,
  eq_iff x x,
  eq_iff (datetime x) d,
  datetimes_among fs ys (λ y e p. f y (ground arith) p) d,
)

-- If every package of a list has its datetime in another list, the packages are no more than that
-- list is long.
len-datetimes_set-le :
    (fs ys : List String)
    → ((x : String) → elem x fs ≡ true → is_package x ≡ true → elem (datetime x) ys ≡ true)
    → Strset.len (datetimes_set fs) ≤ length ys
unfolding Strset.len Strset.contains
len-datetimes_set-le fs ys f =
    distinct-length-le (datetimes_set fs).m ys (datetimes_set-IsValid fs).once (
      at_elem (datetimes_set fs).m ys
        (λ d e. datetimes_among fs ys f d (sym (contains-datetimes_set fs d) ∙ e)))

abbrev newest : ℕ → List String → List String
newest max_reports packages =
    let datetimes = sort_texts (range (datetimes_set packages)) in
    drop (length datetimes - max_reports) datetimes

length-newest :
    (max_reports : ℕ) (packages : List String) → length (newest max_reports packages) ≤ max_reports
length-newest max_reports packages = omega (
  arith,
  length-drop (length (sort_texts (range (datetimes_set packages))) - max_reports)
      (sort_texts (range (datetimes_set packages))),
)

kept-newest :
    (max_reports : ℕ) (packages disk : List String)
    → IsTrimmed (files_to_exclude max_reports packages) packages packages disk
    → (x : String) → elem x disk ≡ true
    → is_package x ≡ true
    → elem (datetime x) (newest max_reports packages) ≡ true
unfolding files_to_exclude Strset.contains
kept-newest max_reports packages disk h x e p =
    let d = datetime x in
    let sorted = sort_texts (range (datetimes_set packages)) in
    let k = length sorted - max_reports in
    let there : elem d sorted ≡ true =
      elem-sort_texts d (range (datetimes_set packages))
      ∙ contains-datetimes_set packages d
      ∙ some_package-elem x packages (h.before x e) p in
    elim (Bool-cases (elem d (take k sorted))) [
      | inl old ↦ absurd (
          exclusion_applies d x (take k sorted) old (datetime-starts x)
            (h.other x (h.before x e) e))
      | inr new ↦ ground (arith, elem-take-drop d k sorted)
    ]

-- What a successful trim leaves.
pub record IsWithinLimit (max_reports : ℕ) (packages : List String) (t : Trimmed) : Type 0 where
  pub stored : Strset.len (datetimes_set t.files) ≤ max_reports
  pub reported : Strset.len (datetimes_set t.files) ≤ t.report_count
  pub from_before : (x : String) → elem x t.files ≡ true → elem x packages ≡ true

trim_packages-Ensures :
    (fault : String → Option String) (max_reports : ℕ) (packages : List String)
    → Ensures (IsWithinLimit max_reports packages) (trim_packages fault max_reports packages)
unfolding trim_packages
trim_packages-Ensures fault max_reports packages =
    elim (Bool-cases (leb (Strset.len (datetimes_set packages)) max_reports)) [
      | inl e ↦ rw e (
          returns
            (record { stored = leb→le _ _ e; reported = omega arith; from_before = λ x h. h }))
      | inr e ↦ rw e (
          Ensures-bind _ _
            (remove_excluded-IsTrimmed fault (files_to_exclude max_reports packages) packages
              packages)
            λ disk h.
              let few : Strset.len (datetimes_set disk) ≤ max_reports =
                le_trans
                  (len-datetimes_set-le disk (newest max_reports packages)
                    (kept-newest max_reports packages disk h))
                  (length-newest max_reports packages) in
              returns (record { stored = few; reported = few; from_before = h.before }))
    ]

-- If trimming succeeds, then the packages that are left are no more than the limit and no more
-- than the reported count, and every file that is left was there before.
pub trim_packages-IsWithinLimit :
    (fault : String → Option String) (max_reports : ℕ) (packages : List String) (t : Trimmed)
    → trim_packages fault max_reports packages ≡ ok t
    → (Strset.len (datetimes_set t.files) ≤ max_reports)
      × (Strset.len (datetimes_set t.files) ≤ t.report_count)
      × ((x : String) → elem x t.files ≡ true → elem x packages ≡ true)
trim_packages-IsWithinLimit fault max_reports packages t e =
    let h = Ensures-ok _ t (trim_packages-Ensures fault max_reports packages) e in
    (h.stored, h.reported, h.from_before)
