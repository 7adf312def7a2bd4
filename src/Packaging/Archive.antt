-- ===== src/Packaging/Archive.antt =====
-- GetFileInfo of internal/packaging/packaging.go: what a package says of itself.
use koku_metrics_operator.Base.{String, str_eq, List, Result, ok, err, ◌>>=◌, if◌then◌else◌, []}

-- FileInfoManifest, the part of the manifest that is read back.
pub record FileInfoManifest : Type 0 where
  pub uuid : String
  pub cluster_id : String
  pub files : List String

-- What tar.Reader gives: the next header with what reading its file gives, or an error, or the end.
pub data TarStream : Type 0 where
  tar_end : TarStream
  tar_error : String → TarStream
  tar_file : String → Result String String → TarStream → TarStream

module _ (unmarshal : String → Result String FileInfoManifest) where
  abbrev no_info : FileInfoManifest
  no_info = record { uuid = ""; cluster_id = ""; files = [] }

  -- The loop of GetFileInfo; a package without a manifest has the empty information.
  unfoldable pub find_manifest : TarStream → Result String FileInfoManifest
  find_manifest tar_end = ok no_info
  find_manifest (tar_error e) = err e
  find_manifest (tar_file name content rest) =
      let further = find_manifest rest in
      if str_eq name "manifest.json" then (content >>= unmarshal) else further

  -- GetFileInfo on a file that is opened as an archive, or cannot be.
  unfoldable pub get_file_info : Result String TarStream → Result String FileInfoManifest
  unfolding find_manifest
  get_file_info opened = opened >>= find_manifest
