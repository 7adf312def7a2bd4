-- ===== src/Packaging/Names.antt =====
-- The names of packaged files: buildLocalCSVFileList, createCSVUploadName and the lists of the
-- manifest, in internal/packaging/packaging.go. A Go map over indices is the list of its entries.
use koku_metrics_operator.Base.{ℕ, suc, String, ◌<>◌, Bool, List, [], ◌∷◌, not, if◌then◌else◌}
use koku_metrics_operator.Base.Text.{has_suffix, contains, trim_suffix, last_piece, join_path}
use koku_metrics_operator.Base.Decimal.{itoa}
use koku_metrics_operator.Packaging.Split.{FileInfo}

-- An index of the file list and the path of that file.
abbrev pub Entry : Type 0
Entry = ℕ × String

pub record FileTracker : Type 0 where
  pub costfiles : List Entry
  pub rosfiles : List Entry
  pub allfiles : List Entry

abbrev pub empty_tracker : FileTracker
empty_tracker = record { costfiles = []; rosfiles = []; allfiles = [] }

unfoldable pub track : String → ℕ → FileInfo → FileTracker → FileTracker
track staging idx file t =
    let entry : Entry = (idx, join_path staging file.name) in
    if not (has_suffix file.name ".csv")
    then t
    else if contains file.name "ros-openshift"
    then record t { rosfiles = entry ∷ t.rosfiles; allfiles = entry ∷ t.allfiles }
    else record t { costfiles = entry ∷ t.costfiles; allfiles = entry ∷ t.allfiles }

unfoldable pub build_from : String → ℕ → List FileInfo → FileTracker
build_from staging idx [] = empty_tracker
build_from staging idx (file ∷ files) = track staging idx file (build_from staging (suc idx) files)

-- buildLocalCSVFileList
unfoldable pub build_local_csv_file_list : String → List FileInfo → FileTracker
unfolding build_from track
build_local_csv_file_list staging files = build_from staging 0 files

-- filepath.Ext: from the last dot of the last element, or nothing.
unfoldable pub file_ext : String → String
unfolding last_piece contains
file_ext name = if contains name "." then "." <> last_piece name "." else ""

-- createCSVUploadName
unfoldable pub create_csv_upload_name : Entry → String
unfolding last_piece trim_suffix file_ext itoa
create_csv_upload_name (idx, file_path) =
    let base_file_name = last_piece file_path "/" in
    trim_suffix base_file_name (file_ext base_file_name) <> ("." <> (itoa idx <> ".csv"))

-- The `files` and `resource_optimization_files` of the manifest.
pub record Manifest : Type 0 where
  pub uuid : String
  pub cluster_id : String
  pub version : String
  pub files : List String
  pub ros_files : List String
  pub start : ℕ
  pub end : ℕ
  pub certified : Bool
  pub daily_reports : Bool
