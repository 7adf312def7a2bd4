-- ===== src/Controller/Session.antt =====
-- setAuthAndUpload of
-- internal/controller/costmanagementmetricsconfig_controller.go: what one reconciliation does with
-- console.redhat.com. The state holds the package variables of the controller that outlive it.
pub mod Guarded
pub mod Renewed
use koku_metrics_operator.Base.{
  ℕ, String, ◌<>◌, str_eq, Bool, true, false, ◌&&◌, ◌||◌, not, Option, none, some, List, [], ◌∷◌,
  Result, ok, err, if◌then◌else◌, ◌==◌, same_option,
}
use koku_metrics_operator.Base.Text.{contains}
use koku_metrics_operator.Base.Time.{Time, is_zero}
use koku_metrics_operator.Dirconfig.{FileSystem}
use koku_metrics_operator.Sources
use koku_metrics_operator.Sources.{
  Api, Request, SourceHandler, Checked, SourceError, failure, panicked, source_get_or_create,
}
use koku_metrics_operator.Crhchttp.{AuthConfig, ServiceAccountData, get_access_token}
use koku_metrics_operator.Controller.Package.{check_cycle, files_to_upload}
use koku_metrics_operator.Controller.Secrets.{
  get_pull_secret_token, get_auth_secret, get_service_account_secret,
}
use koku_metrics_operator.Controller.Authentication.{
  AuthType, token, basic, service_account, AuthStatus, Auth, Validation, Validated, no_validation,
  set_authentication, validate_credentials,
}
use koku_metrics_operator.Controller.Upload.{UploadEnv, Uploads, UploadStatus, upload_files}
use koku_metrics_operator.Controller.SourceCheck.{
  SourceSpec, SourceStatus, SessionEnv, same_spec, is_spec_updated, check_source,
}

-- The authentication configuration, the previous validation with the authentication status, the
-- source, and the uploads.
pub record Session : Type 0 where
  pub auth_config : Option AuthConfig
  pub validated : Validated
  pub source : SourceStatus
  pub uploads : Uploads

-- setAuthAndUpload returns an error or nil, or a step of it panics.
pub data Ending : Type 0 where
  returns : Option String → Ending
  panics : Ending

same_type : AuthType → AuthType → Bool
same_type token token = true
same_type basic basic = true
same_type service_account service_account = true
same_type token basic = false
same_type token service_account = false
same_type basic token = false
same_type basic service_account = false
same_type service_account token = false
same_type service_account basic = false

-- GetAuthSecret starts a new validation, if the name of the secret is another.
unfoldable pub for_secret : String → Option Validation → Validation
for_secret name none = record no_validation { secret_name = name }
for_secret name (some p) =
    if str_eq p.secret_name name then p else record no_validation { secret_name = name }

module _ (env : SessionEnv) where
  abbrev new_config : AuthConfig
  new_config = record {
    cluster_id = env.cluster_id;
    authentication = env.auth_type;
    bearer_token_string = "";
    basic_auth_user = "";
    basic_auth_password = "";
    validate_cert = env.validate_cert;
    operator_commit = env.operator_commit;
    service_account_data = record { client_id = ""; client_secret = "" };
  }

  -- The configuration of the previous reconciliation, if the type of authentication is the same.
  unfoldable pub start_config : Option AuthConfig → AuthConfig
  unfolding same_type
  start_config none = new_config
  start_config (some c) =
      if same_type c.authentication env.auth_type
      then record c { validate_cert = env.validate_cert }
      else new_config

  take_token : Result String String → AuthConfig → Option String × AuthConfig
  take_token (err e) c = (some e, c)
  take_token (ok t) c = (none, record c { bearer_token_string = t })

  take_user : Result String (String × String) → AuthConfig → Option String × AuthConfig
  take_user (err e) c = (some e, c)
  take_user (ok (user, password)) c =
      (none, record c { basic_auth_user = user; basic_auth_password = password })

  take_account : Result String (String × String) → AuthConfig → Option String × AuthConfig
  take_account (err e) c = (some e, c)
  take_account (ok (id, secret)) c =
      (none, record c { service_account_data = record { client_id = id; client_secret = secret } })

  -- The secret of a type of authentication, if one is read: its error, and the configuration with
  -- what it has.
  unfoldable pub read_secret : AuthType → AuthConfig → Option String × AuthConfig
  unfolding take_token take_user take_account get_pull_secret_token get_auth_secret
      get_service_account_secret
  read_secret token c = take_token (get_pull_secret_token env.unmarshal_auths env.pull_secret) c
  read_secret basic c = take_user (get_auth_secret (env.secret env.secret_name)) c
  read_secret service_account c =
      take_account (get_service_account_secret (env.secret env.secret_name)) c

  -- Is the secret of this type read at all?
  unfoldable pub reads_secret : AuthType → Bool
  reads_secret token = true
  reads_secret basic = not (str_eq env.secret_name "")
  reads_secret service_account = not (str_eq env.secret_name "")

  -- What the calls of a configuration give to setAuthentication and validateCredentials.
  abbrev pub auth_of : Option String → AuthConfig → Auth
  auth_of e c = record {
    pull_secret_token = e;
    auth_secret = e;
    service_account_secret = e;
    access_token = (get_access_token env.uploads.http c env.token_url).0;
    sources = env.get_sources c;
    username = c.basic_auth_user;
    password = c.basic_auth_password;
    secret_name = env.secret_name;
  }

  validation_of : AuthType → Option Validation → Option Validation
  unfolding for_secret reads_secret
  validation_of basic p = if reads_secret basic then some (for_secret env.secret_name p) else p
  validation_of token p = p
  validation_of service_account p = p

  -- setAuthentication on the state.
  unfoldable pub authenticate : Session → Option String × Session
  unfolding start_config read_secret reads_secret validation_of set_authentication
  authenticate s =
      let c = start_config s.auth_config in
      let (e, c') = if reads_secret env.auth_type then read_secret env.auth_type c else (none, c) in
      let (e', status) = set_authentication (auth_of e c) env.auth_type s.validated.status in
      (
        e',
        record s {
          auth_config = some c';
          validated = record (s.validated) {
            previous = validation_of env.auth_type s.validated.previous;
            status = status;
          };
        },
      )

  -- validateCredentials on the state; a token that it is given is kept.
  unfoldable pub validate : ℕ → Session → Option String × Session
  unfolding validate_credentials get_access_token start_config
  validate cycle s =
      let c = start_config s.auth_config in
      let (e, v) = validate_credentials (auth_of none c) env.auth_type cycle env.now s.validated in
      let c' = (get_access_token env.uploads.http c env.token_url).1 in
      (e, record s { auth_config = some c'; validated = v })

  is_defined : Option Bool → Bool
  is_defined none = false
  is_defined (some b) = b

  -- Credentials are validated again, if the last upload failed by them.
  revalidated : Option String × Session → Ending × Session
  unfolding validate contains
  revalidated (some e, s) = (returns (some e), s)
  revalidated (none, s) =
      if contains s.uploads.status.last_upload_status "401"
      then (let (e, s') = validate 0 s in (returns e, s'))
      else (returns none, s)

  sent_files : List String → Session → Option String × Session
  unfolding upload_files start_config
  sent_files files s =
      let (e, uploads) = upload_files env.uploads (start_config s.auth_config) files s.uploads in
      (e, record s { uploads = uploads })

  if_defined : List String → Session → Ending × Session
  unfolding is_defined revalidated sent_files
  if_defined files s =
      if is_defined s.source.source_defined then revalidated (sent_files files s) else (
        returns none,
        record s {
          uploads = record (s.uploads) {
            status = record (s.uploads.status) {
              upload_error =
                  "Reports are being stored until a valid integration is configured in console.redhat.com";
            };
          };
        },
      )

  after_check : List String → Option SourceError × SourceStatus → Session → Ending × Session
  unfolding if_defined
  after_check files (some panicked, source) s = (panics, s)
  after_check [] (some (failure e), source) s = (returns none, record s { source = source })
  after_check [] (none, source) s = (returns none, record s { source = source })
  after_check (file ∷ files) (some (failure e), source) s =
      if_defined (file ∷ files) (record s { source = source })
  after_check (file ∷ files) (none, source) s =
      if_defined (file ∷ files) (record s { source = source })

  after_validation : List String → Option String × Session → Ending × Session
  unfolding after_check check_source
  after_validation files (some e, s) = (returns (some e), s)
  after_validation files (none, s) = after_check files (check_source env s.source) s

  abbrev pub is_empty : List String → Bool
  is_empty [] = true
  is_empty (file ∷ files) = false

  after_listing : Result String (List String) → Session → Ending × Session
  unfolding after_validation validate
  after_listing (err e) s = (returns (some e), s)
  after_listing (ok files) s =
      if is_empty files && not (is_zero s.source.last_source_check_time)
      then (returns none, s)
      else after_validation files (validate 1440 s)

  after_authentication : Option String × Session → Ending × Session
  unfolding after_listing files_to_upload
  after_authentication (some e, s) = (returns (some e), s)
  after_authentication (none, s) =
      after_listing
        (files_to_upload env.fs env.uploads.upload_path env.upload_cycle env.now
          s.uploads.status.last_successful_upload_time s.uploads.stored)
        s

  -- setAuthAndUpload; an empty list of files is the list that is nil.
  unfoldable pub set_auth_and_upload : Session → Ending × Session
  unfolding after_authentication authenticate
  set_auth_and_upload s = after_authentication (authenticate s)
