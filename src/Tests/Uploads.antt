-- ===== src/Tests/Uploads.antt =====
-- The theorems on uploads, applied to two packages of which the second is refused.
use koku_metrics_operator.Base.{
  ℕ, suc, ◌+◌, ◌*◌, String, ◌<>◌, str_eq, Bool, true, false, Option, none, some, List, [], ◌∷◌,
  elem, ◌≡◌, refl, ◌⊎◌, Result, ok, err, if◌then◌else◌, map,
}
use koku_metrics_operator.Base.Text.{contains, join}
use koku_metrics_operator.Base.Time.{minute}
use koku_metrics_operator.Base.Split.{stars}
use koku_metrics_operator.Dirconfig.{FileSystem}
use koku_metrics_operator.Crhchttp.{AuthConfig, Http}
use koku_metrics_operator.Crhchttp.Scrub.{scrub_line, scrub_authorization}
use koku_metrics_operator.Crhchttp.Hidden.{scrub_authorization-hides}
use koku_metrics_operator.Packaging.Archive.{tar_file, tar_end}
use koku_metrics_operator.Controller.Authentication.{token, basic}
use koku_metrics_operator.Controller.Upload.{Uploads, UploadEnv, upload_files}
use koku_metrics_operator.Controller.Upload.Accepted.{accepted, upload_files-keeps_unaccepted}
use koku_metrics_operator.Controller.Upload.Ordered.{TellsOfLast, upload_files-TellsOfLast}
use koku_metrics_operator.Controller.Session.{
  Session, returns, authenticate, validate, set_auth_and_upload,
}
use koku_metrics_operator.Controller.SourceCheck.{SessionEnv}
use koku_metrics_operator.Controller.Session.Guarded.{
  Untouched, Cleared, set_auth_and_upload-Untouched,
}
use koku_metrics_operator.Controller.Session.Renewed.{validate-after_rename}

abbrev dump : String → String
dump status = "HTTP/1.1 " <> (status <> "\r\n\r\nbody")

-- The second package is refused.
abbrev http : Http
http = record {
  new_request_error = λ method uri. none;
  basic_authorization = λ user password. "Basic " <> (user <> password);
  dump_request = λ req. ok "POST / HTTP/1.1\r\nAuthorization: Bearer abc\r\n\r\n";
  send = λ validate req.
      (if str_eq req.body "b"
        then ok
            (record { status_code = 401; request_id = "r2"; body = "body"; dump = ok (dump "401") })
        else ok (record {
          status_code = 202;
          request_id = "r1";
          body = "body";
          dump = ok (dump "202");
        }));
  status_text = λ code. "";
  encode = λ values. "form";
  decode_error = λ body. err "no JSON";
  decode_token = λ body. ok "new token";
}

abbrev upload_env : UploadEnv
upload_env = record {
  http = http;
  unmarshal_info =
      λ content. ok (record { uuid = content; cluster_id = "abc"; files = "pod.csv" ∷ [] });
  open_archive = λ path. ok (tar_file "manifest.json" (ok "uid") tar_end);
  multipart = λ path. ok (if contains path "a.tar.gz" then "a" else "b", "multipart/form-data");
  remove_error = λ path. none;
  upload_path = "upload";
  ingress_url = "https://console.redhat.com/api/ingress/v1/upload";
  before = λ file. 100 * minute;
  answered = λ file. 101 * minute;
}

abbrev some_auth : AuthConfig
some_auth = record {
  cluster_id = "abc";
  authentication = token;
  bearer_token_string = "abc";
  basic_auth_user = "";
  basic_auth_password = "";
  validate_cert = true;
  operator_commit = "1";
  service_account_data = record { client_id = ""; client_secret = "" };
}

abbrev nothing_sent : Uploads
nothing_sent = record {
  status = record {
    last_upload_status = "";
    last_payload_name = "";
    last_payload_files = [];
    last_payload_manifest_id = "";
    last_payload_request_id = "";
    upload_error = "";
    last_successful_upload_time = 0;
  };
  stored = "a.tar.gz" ∷ "b.tar.gz" ∷ "c.tar.gz" ∷ [];
  sent = [];
}

abbrev three_files : List String
three_files = "a.tar.gz" ∷ "b.tar.gz" ∷ "c.tar.gz" ∷ []

second_refused :
    ((upload_files upload_env some_auth three_files nothing_sent).0 ≡ none)
    × (((upload_files upload_env some_auth three_files nothing_sent).1.stored
          ≡ "b.tar.gz" ∷ "c.tar.gz" ∷ [])
        × ((upload_files upload_env some_auth three_files nothing_sent).1.status.last_upload_status
            ≡ "401 "))
unfolding upload_files
second_refused = (refl, (refl, refl))

upload_files-keeps_unaccepted_example :
    (let w' = (upload_files upload_env some_auth three_files nothing_sent).1 in
      (elem "a.tar.gz" w'.stored ≡ true) ⊎ (accepted "a.tar.gz" w'.sent ≡ true))
upload_files-keeps_unaccepted_example =
    upload_files-keeps_unaccepted upload_env some_auth three_files nothing_sent "a.tar.gz" refl

upload_files-TellsOfLast_example :
    (let w' = (upload_files upload_env some_auth three_files nothing_sent).1 in
      TellsOfLast w'.status w'.sent)
upload_files-TellsOfLast_example =
    upload_files-TellsOfLast upload_env some_auth three_files nothing_sent tt tt

scrub_authorization-hides_example :
    scrub_authorization "POST / HTTP/1.1\r\nAuthorization: Bearer abc\r\nHost: x"
    ≡ "POST / HTTP/1.1\r\nAuthorization: Bearer ***\r\nHost: x"
unfolding koku_metrics_operator.Base.Split.lacks contains join scrub_line
scrub_authorization-hides_example =
    scrub_authorization-hides "POST / HTTP/1.1" [] "Authorization: Bearer" "abc" ("Host: x" ∷ [])
      (refl, (refl, (refl, tt))) refl refl

abbrev pub session_env : SessionEnv
session_env = record {
  auth_type = token;
  secret_name = "secret";
  token_url = "https://sso.redhat.com";
  validate_cert = true;
  operator_commit = "1";
  cluster_id = "abc";
  source_spec = record {
    sources_api_path = "";
    source_name = "cluster";
    create_source = none;
    check_cycle = none;
  };
  source_name = "cluster";
  create_source = true;
  source_check_cycle = 1440;
  upload_cycle = 360;
  now = 1000 * minute;
  fs = record {
    stat_error = λ path. none;
    create_error = λ path. none;
    remove_error = λ path. none;
    list_error = λ path. none;
  };
  api = record {
    send = λ log request. ok "{}";
    unmarshal_types =
        λ body. ok (record { count = 1; items = record { id = "1"; name = "openshift" } ∷ [] });
    unmarshal_sources = λ body. ok (record { count = 0; items = [] });
    unmarshal_source = λ body.
        ok (record { id = "7"; name = "cluster"; source_type_id = "1"; source_ref = "abc" });
  };
  uploads = upload_env;
  unmarshal_auths = λ content. ok (("cloud.openshift.com", " abc ") ∷ []);
  pull_secret = ok ((".dockerconfigjson", "{}") ∷ []);
  secret = λ name. ok (("Username", "user") ∷ ("password", "pass") ∷ []);
  get_sources = λ auth. none;
}

abbrev pub first_session : Session
first_session = record {
  auth_config = none;
  validated = record {
    previous = none;
    status = record {
      credentials_found = none;
      auth_error_message = "";
      valid_basic_auth = none;
      last_verification_time = none;
      deprecation_notice = "";
    };
    requests = 0;
  };
  source = record {
    source_defined = none;
    source_error = "";
    last_source_check_time = 0;
    checked_spec = none;
    requests = [];
  };
  uploads = nothing_sent;
}

uploads_once :
    ((set_auth_and_upload session_env first_session).0 ≡ returns none)
    × ((set_auth_and_upload session_env first_session).1.uploads.stored
        ≡ "b.tar.gz" ∷ "c.tar.gz" ∷ [])
unfolding set_auth_and_upload koku_metrics_operator.Dirconfig.get_files
uploads_once = (refl, refl)

set_auth_and_upload-Untouched_example :
    (Untouched first_session (set_auth_and_upload session_env first_session).1)
    ⊎ (Cleared session_env first_session)
set_auth_and_upload-Untouched_example = set_auth_and_upload-Untouched session_env first_session

validate-after_rename_example :
    (let env' = record session_env { auth_type = basic } in
      (validate env' 1440 (authenticate env' first_session).1).1.validated.requests ≡ 1)
validate-after_rename_example = validate-after_rename session_env first_session 1440 refl refl
