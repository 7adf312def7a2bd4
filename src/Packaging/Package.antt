-- ===== src/Packaging/Package.antt =====
-- moveOrCopyFiles, getManifest, writeTarball and PackageReports of
-- internal/packaging/packaging.go. Directories are the names of their files.
pub mod Contents
pub mod Staging
use koku_metrics_operator.Base.{
  ℕ, String, ◌<>◌, str_eq, Bool, true, false, ◌&&◌, ◌||◌, not, Option, none, some, List, [], ◌∷◌,
  ◌++◌, map, take, elem, without, Result, ok, err, ◌>>=◌, if◌then◌else◌,
}
use koku_metrics_operator.Base.Text.{has_suffix, contains, join_path}
use koku_metrics_operator.Base.Time.{Time, is_zero}
use koku_metrics_operator.Base.Decimal.{itoa}
use koku_metrics_operator.Dirconfig
use koku_metrics_operator.Dirconfig.{
  FileSystem, DirectoryConfig, check_exists_or_recreate, remove_contents,
}
use koku_metrics_operator.Packaging.Split.{FileInfo, SplitEnv, split_files}
use koku_metrics_operator.Packaging.Interval.{get_start_end}
use koku_metrics_operator.Packaging.Names.{
  Entry, FileTracker, build_local_csv_file_list, create_csv_upload_name, Manifest,
}

pub data FilesAction : Type 0 where
  move_files copy_files : FilesAction

-- `ErrNoReports`, which the caller tells apart, or another error.
pub data PackError : Type 0 where
  no_reports : PackError
  failed : String → PackError

-- A package, and the names of what was added to it in order.
pub record Tarball : Type 0 where
  pub name : String
  pub entries : List String

pub record Dirs : Type 0 where
  pub existing : Dirconfig.Disk
  pub reports : List String
  pub staging : List String
  pub upload : List Tarball

-- What the environment gives a packaging run, and which calls fail. The deferred Close of the tar and
-- gzip writers, whose errors writeTarball does not look at, is `some` number of entries that can be
-- read from the package nevertheless.
pub record PackEnv : Type 0 where
  pub fs : FileSystem
  pub split : SplitEnv
  pub dir_cfg : DirectoryConfig
  pub max_bytes : ℕ
  pub uid : String
  pub created_timestamp : String
  pub action_error : String → Option String
  pub stat_staged : String → Result String ℕ
  pub parse_time : String → Time
  pub render_error : Option String
  pub tar_error : String → Option String
  pub add_error : String → Option String
  pub sync_error : String → Option String
  pub close_error : String → Option ℕ
  pub cluster_id : String
  pub operator_commit : String
  pub is_certified : Bool

-- `start` and `end` of a FilePackager, which one reconciliation uses several times.
pub record Packager : Type 0 where
  pub start : Time
  pub end : Time

-- `MoveFiles` renames, also over a file that is there; `CopyFiles` refuses to write over one.
perform : FilesAction → Option String → String → String → Dirs → Result PackError Dirs
perform action (some e) from to dirs = err (failed e)
perform move_files none from to dirs = ok (record dirs {
  reports = without from dirs.reports;
  staging = without to dirs.staging ++ (to ∷ []);
})
perform copy_files none from to dirs =
    if elem to dirs.staging
    then err (failed ("file " <> (to <> " already exists")))
    else ok (record dirs { staging = dirs.staging ++ (to ∷ []) })

-- What a packaging run made.
pub record Packed : Type 0 where
  pub packager : Packager
  pub tracker : FileTracker
  pub manifest : Manifest
  pub split : Bool

-- The entries that can be read after a Close.
unfoldable pub kept_entries : Option ℕ → List String → List String
kept_entries none added = added
kept_entries (some n) added = take n added

module _ (env : PackEnv) where
  -- The result of a step, and the directories as the step left them.
  abbrev Step {ℓ} : Type ℓ → Type ℓ
  Step A = Result PackError A × Dirs

  abbrev staged_name : String → String
  staged_name file = env.uid <> ("-" <> file)

  cons_info : FileInfo → Step (List FileInfo) → Step (List FileInfo)
  cons_info info (err e, dirs) = (err e, dirs)
  cons_info info (ok infos, dirs) = (ok (info ∷ infos), dirs)

  -- The loop over the reports that were listed.
  stage_each : FilesAction → List String → Dirs → Step (List FileInfo)
  stage_each action [] dirs = (ok [], dirs)
  stage_each action (file ∷ files) dirs =
      let to = staged_name file in
      let skip = stage_each action files dirs in
      elim (has_suffix file ".csv") [
        | false ↦ skip
        | true ↦ elim (perform action (env.action_error file) file to dirs) [
          | err e ↦ (err e, dirs)
          | ok dirs' ↦ elim (env.stat_staged to) [
            | err e ↦ (err (failed e), dirs')
            | ok size ↦
                cons_info (record { name = to; size = size }) (stage_each action files dirs')
          ]
        ]
      ]

  -- The staging directory is cleared, if the previous packaging left no error in the status.
  clear_staging : String → Dirs → Step (Unit {0})
  clear_staging packaging_error dirs =
      if str_eq packaging_error ""
      then (let (e, left) = remove_contents env.fs env.dir_cfg.staging dirs.staging in
          (elim e [ none ↦ ok tt | some m ↦ err (failed m) ], record dirs { staging = left }))
      else (ok tt, dirs)

  after_clearing : FilesAction → List String → Step (Unit {0}) → Step (List FileInfo)
  after_clearing action files (err e, dirs) = (err e, dirs)
  after_clearing action files (ok _, dirs) = stage_each action files dirs

  stage_listed : FilesAction → String → Result String (List String) → Dirs → Step (List FileInfo)
  stage_listed action packaging_error (err e) dirs = (err (failed e), dirs)
  stage_listed action packaging_error (ok []) dirs = (err no_reports, dirs)
  stage_listed action packaging_error (ok (file ∷ files)) dirs =
      after_clearing action (file ∷ files) (clear_staging packaging_error dirs)

  -- moveOrCopyFiles
  unfoldable pub move_or_copy_files : FilesAction → String → Dirs → Step (List FileInfo)
  unfolding stage_listed after_clearing clear_staging stage_each perform cons_info
  move_or_copy_files action packaging_error dirs =
      stage_listed action packaging_error
        (Dirconfig.get_files env.fs env.dir_cfg.reports dirs.reports) dirs

  -- Is the interval of the manifest taken from this file?
  has_interval : Packager → String → Bool
  has_interval p name =
      contains name "cm-openshift-pod" || is_zero p.start && contains name "ros-openshift"

  -- The loop over the files to package that reads the interval.
  unfoldable pub read_intervals : List FileInfo → Packager → Result String Packager
  unfolding has_interval
  read_intervals [] p = ok p
  read_intervals (f ∷ files) p = do
    p' ←
        (if has_interval p f.name
          then (do
            i ← get_start_end (env.split.open_csv f.name)
            ok (record { start = env.parse_time i.start; end = env.parse_time i.end }))
          else ok p)
    read_intervals files p'

  -- getManifest
  unfoldable pub get_manifest : FileTracker → Packager → Manifest
  get_manifest t p = record {
    uuid = env.uid;
    cluster_id = env.cluster_id;
    version = env.operator_commit;
    files = map create_csv_upload_name t.costfiles;
    ros_files = map create_csv_upload_name t.rosfiles;
    start = p.start;
    end = p.end;
    certified = env.is_certified;
    daily_reports = true;
  }

  -- A name is in front of what is added after it, unless an error stops the package there.
  add_entry : String → Option String → List String × Option String → List String × Option String
  add_entry name (some e) rest = ([], some e)
  add_entry name none (added, e) = (name ∷ added, e)

  -- addFileToTarWriter, for the files and then for the manifest: the names that were added, and the
  -- error that stopped it.
  add_files : List Entry → List String × Option String
  add_files [] = add_entry "manifest.json" (env.add_error "manifest.json") ([], none)
  add_files ((idx, path) ∷ entries) =
      let name = create_csv_upload_name (idx, path) in
      let rest = add_files entries in
      if has_suffix path ".csv" then add_entry name (env.add_error name) rest else rest

  -- The package after its writers are closed.
  closed : String → List String → Tarball
  closed name added = record { name = name; entries = kept_entries (env.close_error name) added }

  add_all : String → Option String → List String × Option String → List Tarball × Option String
  add_all name (some e) rest = ([], some e)
  add_all name none (added, some e) = (closed name added ∷ [], some e)
  add_all name none (added, none) = (closed name added ∷ [], env.sync_error name)

  -- writeTarball: what stands in the upload directory afterwards, and the error.
  unfoldable pub write_tarball : String → List Entry → List Tarball × Option String
  unfolding add_files add_entry add_all closed kept_entries
  write_tarball name entries = add_all name (env.tar_error name) (add_files entries)

  -- The next package is written, unless this one has an error.
  then_write :
      List Tarball × Option String → List Tarball × Option String → List Tarball × Option String
  then_write (tar, some e) rest = (tar, some e)
  then_write (tar, none) (tars, e) = (tar ++ tars, e)

  -- After a split there is one package for each file.
  write_each : String → List Entry → List Tarball × Option String
  write_each base [] = ([], none)
  write_each base ((idx, path) ∷ entries) =
      then_write (write_tarball (base <> ("-" <> (itoa idx <> ".tar.gz"))) ((idx, path) ∷ []))
        (write_each base entries)

  unfoldable pub write_tarballs : Bool → FileTracker → List Tarball × Option String
  unfolding write_each write_tarball then_write
  write_tarballs split t =
      let base = env.created_timestamp <> "-cost-mgmt" in
      elim split [
        | true ↦ write_each base t.allfiles
        | false ↦ write_tarball (base <> ".tar.gz") t.allfiles
      ]

  -- Everything between staging and the packages.
  unfoldable pub prepare : List FileInfo → Packager → Result String Packed
  unfolding read_intervals get_manifest
  prepare files p = do
    p' ← read_intervals files p
    (files', split) ← split_files env.split env.max_bytes files
    let t = build_local_csv_file_list env.dir_cfg.staging files'
    elim env.render_error [
      | some e ↦ err e
      | none ↦
          ok (record { packager = p'; tracker = t; manifest = get_manifest t p'; split = split })
    ]

  pack_prepared : Dirs → Result String Packed → Step (Option Packed)
  pack_prepared dirs (err e) = (err (failed e), dirs)
  pack_prepared dirs (ok packed) =
      let (tars, e) = write_tarballs packed.split packed.tracker in
      let dirs' = record dirs { upload = dirs.upload ++ tars } in
      elim e [ some m ↦ (err (failed m), dirs') | none ↦ (ok (some packed), dirs') ]

  -- Without reports there is nothing to do, which is no error.
  pack_staged : Packager → Step (List FileInfo) → Step (Option Packed)
  pack_staged p (err no_reports, dirs) = (ok none, dirs)
  pack_staged p (err (failed e), dirs) = (err (failed e), dirs)
  pack_staged p (ok files, dirs) = pack_prepared dirs (prepare files p)

  pack_checked :
      FilesAction → String → Packager → Dirs → Result String Dirconfig.Disk → Step (Option Packed)
  pack_checked action packaging_error p dirs (err e) = (err (failed e), dirs)
  pack_checked action packaging_error p dirs (ok existing) =
      pack_staged p
        (move_or_copy_files action packaging_error (record dirs { existing = existing }))

  -- PackageReports; `some` is a successful packaging, which the status dates.
  unfoldable pub package_reports : FilesAction → String → Packager → Dirs → Step (Option Packed)
  unfolding pack_checked pack_staged pack_prepared move_or_copy_files prepare write_tarballs
  package_reports action packaging_error p dirs = pack_checked action packaging_error p dirs (
      check_exists_or_recreate env.fs
        (env.dir_cfg.reports ∷ env.dir_cfg.staging ∷ env.dir_cfg.upload ∷ []) dirs.existing)
