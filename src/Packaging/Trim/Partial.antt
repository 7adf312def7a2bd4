-- ===== src/Packaging/Trim/Partial.antt =====
-- What TrimPackages of internal/packaging/packaging.go leaves in the upload directory, also where it
-- stops with an error.
use koku_metrics_operator.Base.{
  String, starts_with, Option, none, some, List, [], ◌∷◌, Result, ok, err, ◌≡◌, ℕ, leb, refl, ap,
  sym, ◌∙◌, Bool-cases, inl, inr, if◌then◌else◌, ◌>>=◌,
}
use koku_metrics_operator.Strset
use koku_metrics_operator.Packaging.Trim.{
  os_remove, remove_prefixed, remove_excluded, datetimes_set, files_to_exclude, Trimmed,
  trim_packages,
}

-- A step of a loop that removes files: its error, and what is left.
abbrev pub Removal : Type 0
Removal = Option String × List String

removal_of : Result String (List String) → List String → Removal
removal_of (err e) disk = (some e, disk)
removal_of (ok disk') disk = (none, disk')

module _ (fault : String → Option String) where
  then_remove : Removal → (List String → Removal) → Removal
  then_remove (some e, disk) next = (some e, disk)
  then_remove (none, disk) next = next disk

  -- The inner loop of TrimPackages.
  unfoldable pub trim_prefixed : String → List String → List String → Removal
  unfolding removal_of then_remove os_remove
  trim_prefixed pre [] disk = (none, disk)
  trim_prefixed pre (file ∷ packages) disk =
      if starts_with file pre
      then then_remove (removal_of (os_remove fault file disk) disk) (trim_prefixed pre packages)
      else trim_prefixed pre packages disk

  -- The outer loop.
  unfoldable pub trim_excluded : List String → List String → List String → Removal
  unfolding trim_prefixed then_remove
  trim_excluded [] packages disk = (none, disk)
  trim_excluded (pre ∷ excluded) packages disk =
      then_remove (trim_prefixed pre packages disk) (trim_excluded excluded packages)

  abbrev pub removal_result : Removal → Result String (List String)
  removal_result (some e, disk) = err e
  removal_result (none, disk) = ok disk

  then_removed :
      (r : Result String (List String)) (disk : List String) (f : List String → Removal)
      (g : List String → Result String (List String))
      → ((d : List String) → removal_result (f d) ≡ g d)
      → removal_result (then_remove (removal_of r disk) f) ≡ (r >>= g)
  unfolding then_remove removal_of
  then_removed (err e) disk f g h = refl
  then_removed (ok d) disk f g h = h d

  trim_prefixed-remove_prefixed :
      (pre : String) (packages disk : List String)
      → removal_result (trim_prefixed pre packages disk) ≡ remove_prefixed fault pre packages disk
  unfolding trim_prefixed remove_prefixed
  trim_prefixed-remove_prefixed pre [] disk = refl
  trim_prefixed-remove_prefixed pre (file ∷ packages) disk =
      elim (Bool-cases (starts_with file pre)) [
        | inl e ↦ rw e (
            then_removed (os_remove fault file disk) disk (trim_prefixed pre packages)
              (remove_prefixed fault pre packages) (trim_prefixed-remove_prefixed pre packages))
        | inr e ↦ rw e (trim_prefixed-remove_prefixed pre packages disk)
      ]

  then_removed_all :
      (r : Removal) (q : Result String (List String)) (f : List String → Removal)
      (g : List String → Result String (List String))
      → removal_result r ≡ q
      → ((d : List String) → removal_result (f d) ≡ g d)
      → removal_result (then_remove r f) ≡ (q >>= g)
  unfolding then_remove
  then_removed_all (some e, disk) q f g same h = ap (λ m. m >>= g) same
  then_removed_all (none, disk) q f g same h = h disk ∙ ap (λ m. m >>= g) same

  trim_excluded-remove_excluded :
      (excluded packages disk : List String)
      → removal_result (trim_excluded excluded packages disk)
        ≡ remove_excluded fault excluded packages disk
  unfolding trim_excluded remove_excluded
  trim_excluded-remove_excluded [] packages disk = refl
  trim_excluded-remove_excluded (pre ∷ excluded) packages disk =
      then_removed_all (trim_prefixed pre packages disk) (remove_prefixed fault pre packages disk)
        (trim_excluded excluded packages) (remove_excluded fault excluded packages)
        (trim_prefixed-remove_prefixed pre packages disk)
        (trim_excluded-remove_excluded excluded packages)

  -- TrimPackages: its error, and what is left.
  unfoldable pub trim_left : ℕ → List String → Removal
  unfolding trim_excluded
  trim_left max_reports packages =
      if leb (Strset.len (datetimes_set packages)) max_reports
      then (none, packages)
      else trim_excluded (files_to_exclude max_reports packages) packages packages

  map_files :
      (q : Result String (List String)) (f : List String → Trimmed)
      → ((d : List String) → (f d).files ≡ d)
      → q ≡ ((q >>= λ d. ok (f d)) >>= λ t. ok t.files)
  map_files (err e) f h = refl
  map_files (ok d) f h = ap ok (sym (h d))

  pub trim_left-trim_packages :
      (max_reports : ℕ) (packages : List String)
      → removal_result (trim_left max_reports packages)
        ≡ (trim_packages fault max_reports packages >>= λ t. ok t.files)
  unfolding trim_left trim_packages
  trim_left-trim_packages max_reports packages =
      elim (Bool-cases (leb (Strset.len (datetimes_set packages)) max_reports)) [
        | inl e ↦ rw e refl
        | inr e ↦ rw e (
            trim_excluded-remove_excluded (files_to_exclude max_reports packages) packages packages
            ∙ map_files _ (λ d. record { report_count = max_reports; files = d }) (λ d. refl))
      ]
