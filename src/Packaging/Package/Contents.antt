-- ===== src/Packaging/Package/Contents.antt =====
-- What the packages hold, and what the manifest says that they hold.
use mathlib.Core.List.{append-nil}
use text.Mathlib.TextLemmas.{nil-append, cons-append}
use koku_metrics_operator.Base.{
  ℕ, suc, take, sym, subst, ◌≡◌, refl, ap, ◌∙◌, some-ne-none, String, ◌<>◌, Bool, true, false, ◌||◌,
  Option, none, some, List, [], ◌∷◌, ◌++◌, map, All, Bool-cases, inl, inr, arith, elem, elem-append,
}
use koku_metrics_operator.Base.Text.{has_suffix, contains}
use koku_metrics_operator.Base.Decimal.{itoa}
use koku_metrics_operator.Packaging.Split.{FileInfo}
use koku_metrics_operator.Packaging.Names.{
  Entry, FileTracker, track, build_from, build_local_csv_file_list, create_csv_upload_name,
}
use koku_metrics_operator.Packaging.Package.{
  PackEnv, Packager, Tarball, kept_entries, closed, get_manifest, add_entry, add_files, add_all,
  then_write, write_tarball, write_each, write_tarballs,
}

has_suffix-append : (s t u : String) → has_suffix t u ≡ true → has_suffix (s <> t) u ≡ true
unfolding has_suffix
has_suffix-append String.[] t u h = rw nil-append h
has_suffix-append (String.◌∷◌ c s) t u h =
    rw cons-append (ground (arith, has_suffix-append s t u h))

-- Every path of the tracker ends in `.csv`.
abbrev AllCsv : List Entry → Type 0
AllCsv = All (λ (e : Entry). has_suffix e.1 ".csv" ≡ true)

track-AllCsv :
    (staging : String) (idx : ℕ) (file : FileInfo) (t : FileTracker)
    → AllCsv t.allfiles
    → AllCsv (track staging idx file t).allfiles
unfolding track
track-AllCsv staging idx file t h = elim (Bool-cases (has_suffix file.name ".csv")) [
  | inl e ↦ elim (Bool-cases (contains file.name "ros-openshift")) [
    | inl r ↦ rw (e, r) (has_suffix-append staging _ _ (has_suffix-append "/" file.name _ e), h)
    | inr r ↦ rw (e, r) (has_suffix-append staging _ _ (has_suffix-append "/" file.name _ e), h)
  ]
  | inr e ↦ rw e h
]

build_from-AllCsv :
    (staging : String) (idx : ℕ) (files : List FileInfo)
    → AllCsv (build_from staging idx files).allfiles
unfolding build_from
build_from-AllCsv staging idx [] = tt
build_from-AllCsv staging idx (f ∷ files) =
    track-AllCsv staging idx f (build_from staging (suc idx) files)
      (build_from-AllCsv staging (suc idx) files)

-- The package of some entries.
abbrev package_of : String → List Entry → Tarball
package_of name entries = record {
  name = name;
  entries = map create_csv_upload_name entries ++ "manifest.json" ∷ [];
}

-- The packages that can be read, beside those that were meant: the same, or a package has the first
-- entries only, if the Close of its writers failed.
pub data IsReadable (close_error : String → Option ℕ) : List Tarball → List Tarball → Type 0 where
  nothing : IsReadable close_error [] []
  whole :
      {t : Tarball} {ts us : List Tarball}
      → IsReadable close_error ts us
      → IsReadable close_error (t ∷ ts) (t ∷ us)
  cut_off :
      {t : Tarball} {ts us : List Tarball} (n : ℕ)
      → close_error t.name ≡ some n
      → IsReadable close_error ts us
      → IsReadable close_error (record t { entries = take n t.entries } ∷ ts) (t ∷ us)

-- The packages of a run with the given base name.
unfoldable pub expected : Bool → String → List Entry → List Tarball
unfolding itoa
expected false base entries = package_of (base <> ".tar.gz") entries ∷ []
expected true base entries =
    map (λ (e : Entry). package_of (base <> ("-" <> (itoa e.0 <> ".tar.gz"))) (e ∷ [])) entries

module _ (env : PackEnv) where
  add_entry_all :
      (name : String) (e : Option String) (rest : List String × Option String)
      → (add_entry env name e rest).1 ≡ none
      → (add_entry env name e rest ≡ (name ∷ rest.0, none)) × (rest.1 ≡ none)
  unfolding add_entry
  add_entry_all name (some e) rest h = absurd (some-ne-none _ h)
  add_entry_all name none (added, e) h = (rw h refl, h)

  add_files_all :
      (entries : List Entry)
      → AllCsv entries
      → (add_files env entries).1 ≡ none
      → (add_files env entries).0 ≡ map create_csv_upload_name entries ++ "manifest.json" ∷ []
  unfolding add_files
  add_files_all [] csv = λ h. ap (λ r. r.0) (add_entry_all "manifest.json" _ _ h).0
  add_files_all (e ∷ entries) (csv, rest) =
      rw (csv, add_files)
        (λ h.
          let this = add_entry_all (create_csv_upload_name e) _ _ h in
          ap (λ r. r.0) this.0
          ∙ ap (λ names. create_csv_upload_name e ∷ names) (add_files_all entries rest this.1))

  closed-IsReadable :
      (name : String) (added : List String) (ts us : List Tarball)
      → IsReadable env.close_error ts us
      → IsReadable env.close_error
          (closed env name added ∷ ts)
          (record { name = name; entries = added } ∷ us)
  unfolding closed kept_entries
  closed-IsReadable name added ts us h = with_close (env.close_error name) refl
    where
      with_close :
          (o : Option ℕ)
          → env.close_error name ≡ o
          → IsReadable env.close_error
              (record { name = name; entries = kept_entries o added } ∷ ts)
              (record { name = name; entries = added } ∷ us)
      with_close none e = whole h
      with_close (some n) e = cut_off n e h

  add_all_all :
      (name : String) (e : Option String) (rest : List String × Option String)
      → (add_all env name e rest).1 ≡ none
      → ((add_all env name e rest).0 ≡ closed env name rest.0 ∷ []) × (rest.1 ≡ none)
  unfolding add_all
  add_all_all name (some e) rest h = absurd (some-ne-none _ h)
  add_all_all name none (added, some e) h = absurd (some-ne-none _ h)
  add_all_all name none (added, none) h = (refl, refl)

  write_tarball_all :
      (name : String) (entries : List Entry) (ts us : List Tarball)
      → AllCsv entries
      → (write_tarball env name entries).1 ≡ none
      → IsReadable env.close_error ts us
      → IsReadable env.close_error
          ((write_tarball env name entries).0 ++ ts)
          (package_of name entries ∷ us)
  unfolding write_tarball
  write_tarball_all name entries ts us csv h k =
      let this = add_all_all name _ (add_files env entries) h in
      let added = add_files_all entries csv this.1 in
      subst (λ tars. IsReadable env.close_error (tars ++ ts) (package_of name entries ∷ us))
        (sym (this.0 ∙ ap (λ names. closed env name names ∷ []) added))
        (closed-IsReadable name (package_of name entries).entries ts us k)

  then_write_all :
      (this rest : List Tarball × Option String)
      → (then_write env this rest).1 ≡ none
      → ((then_write env this rest).0 ≡ this.0 ++ rest.0) × ((this.1 ≡ none) × (rest.1 ≡ none))
  unfolding then_write
  then_write_all (tar, some e) rest h = absurd (some-ne-none _ h)
  then_write_all (tar, none) (tars, e) h = (refl, (refl, h))

  write_each_all :
      (base : String) (entries : List Entry)
      → AllCsv entries
      → (write_each env base entries).1 ≡ none
      → IsReadable env.close_error (write_each env base entries).0 (expected true base entries)
  unfolding write_each expected
  write_each_all base [] csv h = nothing
  write_each_all base (e ∷ entries) (csv, rest) h =
      let this = then_write_all _ (write_each env base entries) h in
      subst (λ tars. IsReadable env.close_error tars (expected true base (e ∷ entries)))
        (sym this.0)
        (write_tarball_all _ (e ∷ []) _ _ (csv, tt) this.1.0
          (write_each_all base entries rest this.1.1))

  -- If the packages of a run over staged files are written without an error, then what can be read of
  -- them is: without a split one package with the upload name of each CSV file and then the manifest,
  -- and after a split one package for each CSV file, with the index of the file in its name, that holds
  -- the upload name of the file and the manifest. A package has the first of its entries only if the
  -- Close of its writers failed, whose error is not looked at.
  pub write_tarballs-expected :
      (split : Bool) (staging : String) (files : List FileInfo)
      → (write_tarballs env split (build_local_csv_file_list staging files)).1 ≡ none
      → IsReadable env.close_error
          (write_tarballs env split (build_local_csv_file_list staging files)).0
          (expected split
            (env.created_timestamp <> "-cost-mgmt")
            (build_local_csv_file_list staging files).allfiles)
  unfolding write_tarballs expected build_local_csv_file_list
  write_tarballs-expected false staging files h =
      let entries = (build_from staging 0 files).allfiles in
      let name = (env.created_timestamp <> "-cost-mgmt") <> ".tar.gz" in
      subst (λ tars. IsReadable env.close_error tars (package_of name entries ∷ []))
        (append-nil (write_tarball env name entries).0)
        (write_tarball_all name entries [] [] (build_from-AllCsv staging 0 files) h nothing)
  write_tarballs-expected true staging files h =
      write_each_all _ _ (build_from-AllCsv staging 0 files) h

is_listed : String → FileTracker → Bool
is_listed name t =
    elem name (map create_csv_upload_name t.costfiles)
    || elem name (map create_csv_upload_name t.rosfiles)

build_from-listed :
    (name staging : String) (idx : ℕ) (files : List FileInfo)
    → is_listed name (build_from staging idx files)
      ≡ elem name (map create_csv_upload_name (build_from staging idx files).allfiles)
unfolding build_from track is_listed
build_from-listed name staging idx [] = refl
build_from-listed name staging idx (f ∷ files) =
    let ih = build_from-listed name staging (suc idx) files in
    elim (Bool-cases (has_suffix f.name ".csv")) [
      | inl e ↦ elim (Bool-cases (contains f.name "ros-openshift")) [
        | inl r ↦ rw (e, r) (ground (arith, ih))
        | inr r ↦ rw (e, r) (ground (arith, ih))
      ]
      | inr e ↦ rw e ih
    ]

-- A file is named in the manifest, among the cost files or the resource optimization files, exactly
-- if it is the upload name of a file that is packaged.
pub get_manifest-lists :
    (env : PackEnv) (p : Packager) (name staging : String) (files : List FileInfo)
    → (let t = build_local_csv_file_list staging files in
        elem name ((get_manifest env t p).files ++ (get_manifest env t p).ros_files)
        ≡ elem name (map create_csv_upload_name t.allfiles))
unfolding get_manifest build_local_csv_file_list is_listed
get_manifest-lists env p name staging files =
    let t = build_from staging 0 files in
    elem-append name (map create_csv_upload_name t.costfiles)
      (map create_csv_upload_name t.rosfiles)
    ∙ build_from-listed name staging 0 files
