-- ===== src/Packaging/Trim.antt =====
-- TrimPackages of internal/packaging/packaging.go: the upload directory keeps the newest packages.
-- A package is the files whose names have the same text before the first dash.
pub mod Removal
pub mod Limit
pub mod Overlap
pub mod Partial
use koku_metrics_operator.Base.{
  ℕ, ◌-◌, String, ◌<>◌, str_eq, starts_with, Bool, true, false, Option, none, some, List, [], ◌∷◌,
  length, take, elem, without, leb, Result, ok, err, ◌>>=◌, ◌>>◌, if◌then◌else◌,
}
use koku_metrics_operator.Base.Text.{has_suffix, first_piece}
use koku_metrics_operator.Base.Order.{sort_texts}
use koku_metrics_operator.Strset
use koku_metrics_operator.Strset.{Set, add, new_set, range}

-- strings.Split(f, "-")[0]
unfoldable pub datetime : String → String
unfolding first_piece
datetime f = first_piece f "-"

unfoldable pub is_package : String → Bool
unfolding has_suffix
is_package f = has_suffix f "tar.gz"

add_datetimes : Set → List String → Set
add_datetimes s [] = s
add_datetimes s (f ∷ fs) = add_datetimes (if is_package f then add s (datetime f) else s) fs

unfoldable pub datetimes_set : List String → Set
unfolding add_datetimes add datetime is_package new_set
datetimes_set packages = add_datetimes new_set packages

pub remove_unless : Option String → String → List String → Result String (List String)
remove_unless (some e) file disk = err e
remove_unless none file disk =
    if elem file disk then ok (without file disk) else err "no such file or directory"

-- os.Remove: the file is gone, or the call fails, since the file is absent or the environment
-- refuses.
unfoldable pub os_remove :
    (String → Option String) → String → List String → Result String (List String)
unfolding remove_unless
os_remove fault file disk = remove_unless (fault file) file disk

-- The inner loop, over the names that were read before any removal.
unfoldable pub remove_prefixed :
    (String → Option String) → String → List String → List String → Result String (List String)
remove_prefixed fault pre [] disk = ok disk
remove_prefixed fault pre (file ∷ packages) disk =
    if starts_with file pre
    then (do disk' ← os_remove fault file disk; remove_prefixed fault pre packages disk')
    else remove_prefixed fault pre packages disk

unfoldable pub remove_excluded :
    (String → Option String) → List String → List String → List String → Result String (List String)
unfolding remove_prefixed os_remove
remove_excluded fault [] packages disk = ok disk
remove_excluded fault (pre ∷ excluded) packages disk = do
  disk' ← remove_prefixed fault pre packages disk
  remove_excluded fault excluded packages disk'

-- The datetimes of the packages to remove, the oldest.
unfoldable pub files_to_exclude : ℕ → List String → List String
unfolding sort_texts datetimes_set range
files_to_exclude max_reports packages =
    let datetimes = sort_texts (range (datetimes_set packages)) in
    take (length datetimes - max_reports) datetimes

-- What TrimPackages leaves: the report count for the status, and the directory.
pub record Trimmed : Type 0 where
  pub report_count : ℕ
  pub files : List String

-- TrimPackages over the files of the upload directory. A limit is at least 1: the schema of the
-- resource rejects others.
unfoldable pub trim_packages : (String → Option String) → ℕ → List String → Result String Trimmed
unfolding remove_excluded files_to_exclude
trim_packages fault max_reports packages =
    let report_count = Strset.len (datetimes_set packages) in
    if leb report_count max_reports
    then ok (record { report_count = report_count; files = packages })
    else do
      disk ← remove_excluded fault (files_to_exclude max_reports packages) packages packages
      ok (record { report_count = max_reports; files = disk })
