-- ===== src/Tests/Packages.antt =====
-- The theorems on packaging, applied to small reports and directories.
use koku_metrics_operator.Base.{
  ℕ, ◌+◌, ◌*◌, ◌≤◌, ◌<◌, ◌≡◌, ◌≢◌, ◌⊎◌, refl, ◌^◌, String, Bool, true, false, Option, none, some,
  List, [], ◌∷◌, ◌++◌, length, elem, All, Result, ok, err, map, leb, arith, if◌then◌else◌, str_eq,
}
use koku_metrics_operator.Strset
use koku_metrics_operator.Packaging.Split.{
  FileInfo, Row, Reader, eof, row, Part, SplitEnv, row_size, split_loop,
}
use koku_metrics_operator.Packaging.Split.Conserve.{
  rows_in, rows_of, taken_of, IsStored, split_loop-IsSplit,
}
use koku_metrics_operator.Packaging.Split.Whole.{Works, estimate, split_loop-whole}
use koku_metrics_operator.Packaging.Trim.{Trimmed, datetimes_set, files_to_exclude, trim_packages}
use koku_metrics_operator.Packaging.Trim.Limit.{trim_packages-IsWithinLimit}
use koku_metrics_operator.Packaging.Trim.Overlap.{prefixes_of, trim_packages-overlap}
use koku_metrics_operator.Packaging.Names.{build_local_csv_file_list, create_csv_upload_name}
use koku_metrics_operator.Packaging.Package.{
  move_files, Dirs, PackEnv, Packager, get_manifest, write_tarballs, package_reports,
}
use koku_metrics_operator.Packaging.Package.Contents.{
  IsReadable, expected, write_tarballs-expected, get_manifest-lists,
}
use koku_metrics_operator.Packaging.Package.Staging.{CanRemove, package_reports-forgets_staged}
use koku_metrics_operator.Controller.Package.{PackStatus, package_files}
use koku_metrics_operator.Controller.Package.Loss.{package_files-forgets_staged}

abbrev some_split : SplitEnv
some_split = record {
  open_csv = λ name. ok (row ("interval_start" ∷ "interval_end" ∷ []) (row ("1" ∷ "2" ∷ []) eof));
  create_error = λ name. none;
  write_error = λ name r. none;
  flush_error = λ name. none;
  stat_error = λ name. none;
  size_of = λ header rows. 10;
  overhead = λ n. 0;
}

abbrev three_rows : Reader
three_rows = row ("a" ∷ "b" ∷ []) (row ("c" ∷ "d" ∷ []) (row ("e" ∷ "f" ∷ []) eof))

abbrev some_header : Row
some_header = "h" ∷ "i" ∷ []

abbrev two_parts : List Part
two_parts =
    record {
      name = "pods1.csv";
      taken = ("a" ∷ "b" ∷ []) ∷ ("c" ∷ "d" ∷ []) ∷ [];
      rows = ("a" ∷ "b" ∷ []) ∷ [];
    }
    ∷ record { name = "pods2.csv"; taken = ("e" ∷ "f" ∷ []) ∷ []; rows = ("e" ∷ "f" ∷ []) ∷ [] }
    ∷ []

-- The Flush of the first part fails after its first row.
abbrev cut_split : SplitEnv
cut_split = record some_split {
  flush_error = λ name. if str_eq name "pods1.csv" then some 1 else none;
}

split_in_two : split_loop cut_split 5 999 1 "pods.csv" some_header three_rows ≡ ok (two_parts, eof)
unfolding split_loop koku_metrics_operator.Base.Text.trim_suffix
    koku_metrics_operator.Base.Decimal.itoa
split_in_two = refl

split_loop-IsSplit_example :
    (taken_of two_parts ++ rows_in eof ≡ rows_in three_rows)
    × All (IsStored cut_split.flush_error) two_parts
    × (length two_parts ≤ 999)
    × ((eof ≡ eof) ⊎ (length two_parts ≡ 999))
split_loop-IsSplit_example =
    split_loop-IsSplit cut_split 5 "pods.csv" some_header three_rows two_parts eof split_in_two

some_split-Works : Works some_split
some_split-Works = record {
  create = λ name. refl;
  write = λ name r. refl;
  flush = λ name. refl;
  stat = λ name. refl;
}

split_loop-whole_example :
    (parts : List Part) × (split_loop some_split 5 999 1 "pods.csv" some_header three_rows
      ≡ ok (parts, eof))
    × (rows_of parts ≡ rows_in three_rows)
    × All (λ p. estimate some_split 5 p.rows < 9) parts
unfolding row_size
split_loop-whole_example =
    split_loop-whole some_split 5 4 "pods.csv" some_header three_rows some_split-Works (omega arith)
      (omega arith) (omega arith) tt (omega arith, (omega arith, (omega arith, tt))) (omega arith)

abbrev some_files : List FileInfo
some_files =
    record { name = "uid-cm-openshift-pod-usage-202601.csv"; size = 40 }
    ∷ record { name = "uid-ros-openshift-container-202601.csv"; size = 70 }
    ∷ record { name = "uid-notes.txt"; size = 5 }
    ∷ []

abbrev some_packages : List String
some_packages =
    "20260101T01-cost-mgmt.tar.gz" ∷ "20260101T010-cost-mgmt.tar.gz"
    ∷ "20260102T01-cost-mgmt.tar.gz" ∷ []

abbrev some_trimmed : Trimmed
some_trimmed = record {
  report_count = 2;
  files = "20260101T01-cost-mgmt.tar.gz" ∷ "20260102T01-cost-mgmt.tar.gz" ∷ [];
}

abbrev three_packages : List String
three_packages =
    "20260101T01-cost-mgmt.tar.gz" ∷ "20260100T01-cost-mgmt.tar.gz" ∷ "20260102T01-cost-mgmt.tar.gz"
    ∷ []

trimmed : trim_packages (λ file. none) 2 three_packages ≡ ok some_trimmed
unfolding trim_packages Strset.len
trimmed = refl

trim_packages-IsWithinLimit_example :
    (Strset.len (datetimes_set some_trimmed.files) ≤ 2)
    × (Strset.len (datetimes_set some_trimmed.files) ≤ 2)
    × ((x : String) → elem x some_trimmed.files ≡ true → elem x three_packages ≡ true)
trim_packages-IsWithinLimit_example =
    trim_packages-IsWithinLimit (λ file. none) 2 three_packages some_trimmed trimmed

too_many : 1 < Strset.len (datetimes_set some_packages)
unfolding datetimes_set Strset.len
too_many = omega arith

twice : 1 < prefixes_of "20260101T010-cost-mgmt.tar.gz" (files_to_exclude 1 some_packages)
unfolding files_to_exclude
twice = omega arith

trim_packages-overlap_example : ¬ (trim_packages (λ file. none) 1 some_packages ≡ ok some_trimmed)
trim_packages-overlap_example =
    trim_packages-overlap (λ file. none) 1 some_packages "20260101T010-cost-mgmt.tar.gz"
      some_trimmed too_many refl twice

abbrev pub some_env : PackEnv
some_env = record {
  fs = record {
    stat_error = λ path. none;
    create_error = λ path. none;
    remove_error = λ path. none;
    list_error = λ path. none;
  };
  split = some_split;
  dir_cfg = record { parent = "p"; upload = "p/upload"; staging = "p/staging"; reports = "p/data" };
  max_bytes = 100;
  uid = "uid";
  created_timestamp = "20260101T010101";
  action_error = λ file. none;
  stat_staged = λ file. ok 10;
  parse_time = λ text. 5;
  render_error = none;
  tar_error = λ name. none;
  add_error = λ name. none;
  sync_error = λ name. none;
  close_error = λ name. none;
  cluster_id = "abc";
  operator_commit = "1";
  is_certified = false;
}

-- The Close of every package fails after its first entry.
abbrev cut_env : PackEnv
cut_env = record some_env { close_error = λ name. some 1 }

written : (write_tarballs cut_env true (build_local_csv_file_list "p/staging" some_files)).1 ≡ none
unfolding write_tarballs build_local_csv_file_list koku_metrics_operator.Base.Text.has_suffix
    koku_metrics_operator.Base.Text.contains
written = refl

write_tarballs-expected_example :
    IsReadable cut_env.close_error
      (write_tarballs cut_env true (build_local_csv_file_list "p/staging" some_files)).0
      (expected true "20260101T010101-cost-mgmt"
        (build_local_csv_file_list "p/staging" some_files).allfiles)
write_tarballs-expected_example =
    write_tarballs-expected cut_env true "p/staging" some_files written

abbrev some_packager : Packager
some_packager = record { start = 0; end = 0 }

get_manifest-lists_example :
    (let t = build_local_csv_file_list "p/staging" some_files in
      elem "uid-cm-openshift-pod-usage-202601.0.csv" (
        (get_manifest some_env t some_packager).files
        ++ (get_manifest some_env t some_packager).ros_files)
      ≡ elem "uid-cm-openshift-pod-usage-202601.0.csv" (map create_csv_upload_name t.allfiles))
get_manifest-lists_example =
    get_manifest-lists some_env some_packager "uid-cm-openshift-pod-usage-202601.0.csv" "p/staging"
      some_files

abbrev some_dirs : Dirs
some_dirs = record {
  existing = [];
  reports = "cm-openshift-pod-usage-202601.csv" ∷ [];
  staging = "old-cm-openshift-pod-usage-202601.csv" ∷ [];
  upload = [];
}

some_env-CanRemove : CanRemove some_env.fs
some_env-CanRemove = record { listing = λ dir. refl; removing = λ path. refl }

some_reports : some_dirs.reports ≢ []
some_reports e = cc

package_reports-forgets_staged_example :
    (package_reports some_env move_files "" some_packager some_dirs).0
    ≡ (package_reports some_env move_files "" some_packager (record some_dirs { staging = [] })).0
package_reports-forgets_staged_example =
    package_reports-forgets_staged some_env move_files some_packager some_dirs some_env-CanRemove
      some_reports

abbrev pub failed_before : PackStatus
failed_before = record {
  packaging_error = "disk full";
  last_successful_packaging_time = 0;
  packager = some_packager;
}

package_files-forgets_staged_example :
    (package_files some_env move_files 9 failed_before some_dirs).0
    ≡ (package_files some_env move_files 9 failed_before (record some_dirs { staging = [] })).0
package_files-forgets_staged_example =
    package_files-forgets_staged some_env move_files 9 failed_before some_dirs some_env-CanRemove
      some_reports
