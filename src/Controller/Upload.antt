-- ===== src/Controller/Upload.antt =====
-- uploadFiles of internal/controller/costmanagementmetricsconfig_controller.go. The pause before the
-- first upload is left out.
pub mod Accepted
pub mod Ordered
use koku_metrics_operator.Base.{
  String, ◌<>◌, Bool, true, false, ◌&&◌, ◌||◌, str_eq, Option, none, some, List, [], ◌∷◌, Result,
  ok, err, without, if◌then◌else◌,
}
use koku_metrics_operator.Base.Text.{contains, join_path}
use koku_metrics_operator.Base.Time.{Time}
use koku_metrics_operator.Crhchttp.{AuthConfig, Http, HttpRequest, Uploaded, upload}
use koku_metrics_operator.Packaging.Archive.{FileInfoManifest, TarStream, get_file_info}

-- The status of the upload.
pub record UploadStatus : Type 0 where
  pub last_upload_status : String
  pub last_payload_name : String
  pub last_payload_files : List String
  pub last_payload_manifest_id : String
  pub last_payload_request_id : String
  pub upload_error : String
  pub last_successful_upload_time : Time

-- An upload: the file, the request if there was one, and what Upload gave back.
pub record Sent : Type 0 where
  pub file : String
  pub request : Option HttpRequest
  pub result : Uploaded

-- The status, the names in the upload directory, and the uploads so far, the last first.
pub record Uploads : Type 0 where
  pub status : UploadStatus
  pub stored : List String
  pub sent : List Sent

-- What the environment gives: archives and multipart bodies with their content type, by path, which
-- files cannot be removed, and the times before and after an upload.
pub record UploadEnv : Type 0 where
  pub http : Http
  pub unmarshal_info : String → Result String FileInfoManifest
  pub open_archive : String → Result String TarStream
  pub multipart : String → Result String (String × String)
  pub remove_error : String → Option String
  pub upload_path : String
  pub ingress_url : String
  pub before : String → Time
  pub answered : String → Time

-- The loop goes on, or uploadFiles returns.
pub data Flow : Type 0 where
  go_on : Flow
  stop : Option String → Flow

module _ (env : UploadEnv) where
  abbrev pub path_of : String → String
  path_of file = join_path env.upload_path file

  -- The file is removed, if that succeeds.
  unfoldable pub remove_file : String → List String → List String
  remove_file file stored = elim (env.remove_error (path_of file)) [
    | some e ↦ stored
    | none ↦ without file stored
  ]

  noted : String → FileInfoManifest → Uploaded → UploadStatus → UploadStatus
  noted file info u st = record {
    last_upload_status = u.status;
    last_payload_name = file;
    last_payload_files = info.files;
    last_payload_manifest_id = info.uuid;
    last_payload_request_id = u.request_id;
    upload_error = "";
    last_successful_upload_time = st.last_successful_upload_time;
  }

  by_error : String → Option String → Uploaded → Uploads → Flow × Uploads
  unfolding remove_file contains
  by_error file (some e) u w =
      (stop none, record w { status = record (w.status) { upload_error = e } })
  by_error file none u w =
      if contains u.status "202"
      then (
        go_on,
        record w {
          status = record (w.status) { last_successful_upload_time = u.time };
          stored = remove_file file w.stored;
        },
      )
      else (go_on, w)

  after_upload :
      String → FileInfoManifest → Uploaded × Option HttpRequest → Uploads → Flow × Uploads
  unfolding by_error noted
  after_upload file info (u, request) w = by_error file u.error u (record w {
    status = noted file info u w.status;
    sent = record { file = file; request = request; result = u } ∷ w.sent;
  })

  module _ (auth : AuthConfig) where
    unfoldable pub send_file : String → String × String → Uploaded × Option HttpRequest
    unfolding upload
    send_file file (body, content_type) =
        upload env.http auth content_type "POST" env.ingress_url body (env.before file)
          (env.answered file)

    with_body :
        String → FileInfoManifest → Result String (String × String) → Uploads → Flow × Uploads
    unfolding after_upload send_file
    with_body file info (err e) w = (stop (some e), w)
    with_body file info (ok body) w = after_upload file info (send_file file body) w

    with_info : String → Result String FileInfoManifest → Uploads → Flow × Uploads
    unfolding with_body
    with_info file (err e) w = (go_on, w)
    with_info file (ok info) w = with_body file info (env.multipart (path_of file)) w

    -- The body of the loop.
    unfoldable pub upload_file : String → Uploads → Flow × Uploads
    unfolding with_info contains get_file_info
    upload_file file w = elim (contains file "tar.gz") [
      | false ↦ (go_on, w)
      | true ↦ with_info file (get_file_info env.unmarshal_info (env.open_archive (path_of file))) w
    ]

    follow : Flow × Uploads → (Uploads → Option String × Uploads) → Option String × Uploads
    follow (stop e, w) rest = (e, w)
    follow (go_on, w) rest = rest w

    -- uploadFiles: its error, and the state.
    unfoldable pub upload_files : List String → Uploads → Option String × Uploads
    unfolding upload_file follow
    upload_files [] w = (none, w)
    upload_files (file ∷ files) w = follow (upload_file file w) (upload_files files)
