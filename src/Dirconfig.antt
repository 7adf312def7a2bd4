-- ===== src/Dirconfig.antt =====
-- internal/dirconfig/dirconfig.go: the directories of the operator under its mount path.
pub mod Laws
use koku_metrics_operator.Base.{
  String, ◌<>◌, Bool, true, false, ◌||◌, not, Option, none, some, List, [], ◌∷◌, elem, without,
  Result, ok, err, ◌>>=◌, if◌then◌else◌,
}
use koku_metrics_operator.Base.Text.{join_path}

-- filepath.Join("tmp", NamePrefix + "-metrics-operator-reports"); the prefix is that of the build.
abbrev pub mount_path : String
mount_path = "tmp/koku-metrics-operator-reports"

abbrev pub query_data_dir : String
query_data_dir = "data"

abbrev pub staging_dir : String
staging_dir = "staging"

abbrev pub upload_dir : String
upload_dir = "upload"

-- Which calls of the file system fail: `DirectoryFileSystem`, or the functions of `os`.
pub record FileSystem : Type 0 where
  pub stat_error : String → Option String
  pub create_error : String → Option String
  pub remove_error : String → Option String
  pub list_error : String → Option String

-- The paths of the directories that exist.
abbrev pub Disk : Type 0
Disk = List String

pub record DirectoryConfig : Type 0 where
  pub parent : String
  pub upload : String
  pub staging : String
  pub reports : String

module _ (fs : FileSystem) where
  -- Exists: an error of `stat` counts as absence.
  unfoldable pub exists : String → Disk → Bool
  exists path disk = elim (fs.stat_error path) [ some e ↦ false | none ↦ elem path disk ]

  create_unless : Option String → String → Disk → Result String Disk
  create_unless (some e) path disk = err ("create: " <> (path <> (": " <> e)))
  create_unless none path disk = ok (path ∷ disk)

  unfoldable pub create : String → Disk → Result String Disk
  unfolding create_unless
  create path disk = create_unless (fs.create_error path) path disk

  -- CheckExistsOrRecreate
  unfoldable pub check_exists_or_recreate : List String → Disk → Result String Disk
  unfolding exists create
  check_exists_or_recreate [] disk = ok disk
  check_exists_or_recreate (dir ∷ dirs) disk = do
    disk' ← (if exists dir disk then ok disk else create dir disk)
    check_exists_or_recreate dirs disk'

  unfoldable pub get_or_create_path : String → Disk → Result String (String × Disk)
  unfolding exists create
  get_or_create_path path disk =
      if exists path disk then ok (path, disk) else do disk' ← create path disk; ok (path, disk')

  abbrev config_error {ℓ} : {A : Type ℓ} → Result String A → Result String A
  config_error (ok a) = ok a
  config_error (err e) = err ("getDirectoryConfig: " <> e)

  -- GetDirectoryConfig; the folders come from a map, whose order does not matter to the result.
  unfoldable pub get_directory_config : Disk → Result String (DirectoryConfig × Disk)
  unfolding get_or_create_path
  get_directory_config disk = do
    (parent, disk₁) ← config_error (get_or_create_path mount_path disk)
    (reports, disk₂) ← config_error (get_or_create_path (join_path mount_path query_data_dir) disk₁)
    (staging, disk₃) ← config_error (get_or_create_path (join_path mount_path staging_dir) disk₂)
    (upload, disk₄) ← config_error (get_or_create_path (join_path mount_path upload_dir) disk₃)
    ok (record { parent = parent; upload = upload; staging = staging; reports = reports }, disk₄)

  -- CheckConfig
  unfoldable pub check_config : DirectoryConfig → Disk → Bool
  unfolding exists
  check_config c disk = not (
      not (exists c.parent disk)
      || not (exists c.upload disk)
      || not (exists c.staging disk)
      || not (exists c.reports disk))

  -- GetFiles
  unfoldable pub get_files : String → List String → Result String (List String)
  get_files dir files = elim (fs.list_error dir) [
    | some e ↦ err ("could not read upload directory: " <> e)
    | none ↦ ok files
  ]

  full_paths : String → List String → List String
  full_paths dir [] = []
  full_paths dir (f ∷ files) = join_path dir f ∷ full_paths dir files

  -- GetFilesFullPath
  unfoldable pub get_files_full_path : String → List String → Result String (List String)
  unfolding get_files full_paths
  get_files_full_path dir files = elim (get_files dir files) [
    | err e ↦ err ("could not get full file paths: " <> e)
    | ok fs' ↦ ok (full_paths dir fs')
  ]

  unfoldable pub remove_each : String → List String → Option String × List String
  remove_each dir [] = (none, [])
  remove_each dir (f ∷ files) = elim (fs.remove_error (join_path dir f)) [
    | some e ↦ (some ("RemoveContents: could not remove file: " <> e), f ∷ files)
    | none ↦ remove_each dir files
  ]

  -- RemoveContents: the error, if there is one, and the files that are left.
  unfoldable pub remove_contents : String → List String → Option String × List String
  unfolding remove_each
  remove_contents dir files = elim (fs.list_error dir) [
    | some e ↦ (some ("RemoveContents: could not read directory: " <> e), files)
    | none ↦ remove_each dir files
  ]
