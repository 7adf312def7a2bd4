-- ===== src/Controller/SourceCheck.antt =====
-- checkSource of internal/controller/costmanagementmetricsconfig_controller.go, and the settings that
-- it and setAuthAndUpload read.
use koku_metrics_operator.Base.{
  ℕ, String, str_eq, Bool, true, false, ◌&&◌, ◌||◌, not, Option, none, some, List, Result,
  if◌then◌else◌, ◌==◌, same_option,
}
use koku_metrics_operator.Base.Time.{Time}
use koku_metrics_operator.Dirconfig.{FileSystem}
use koku_metrics_operator.Sources.{
  Api, Request, Checked, SourceError, failure, panicked, source_get_or_create,
}
use koku_metrics_operator.Crhchttp.{AuthConfig}
use koku_metrics_operator.Controller.Package.{check_cycle}
use koku_metrics_operator.Controller.Authentication.{AuthType}
use koku_metrics_operator.Controller.Upload.{UploadEnv}

-- CloudDotRedHatSourceSpec; a pointer is what it refers to.
pub record SourceSpec : Type 0 where
  pub sources_api_path : String
  pub source_name : String
  pub create_source : Option Bool
  pub check_cycle : Option ℕ

-- The source's part of the status, and the specification that was checked last, `sourceSpec`.
pub record SourceStatus : Type 0 where
  pub source_defined : Option Bool
  pub source_error : String
  pub last_source_check_time : Time
  pub checked_spec : Option SourceSpec
  pub requests : List Request

-- The settings of the resource that this step reads, and what answers its calls.
pub record SessionEnv : Type 0 where
  pub auth_type : AuthType
  pub secret_name : String
  pub token_url : String
  pub validate_cert : Bool
  pub operator_commit : String
  pub cluster_id : String
  pub source_spec : SourceSpec
  pub source_name : String
  pub create_source : Bool
  pub source_check_cycle : ℕ
  pub upload_cycle : ℕ
  pub now : Time
  pub fs : FileSystem
  pub api : Api
  pub uploads : UploadEnv
  pub unmarshal_auths : String → Result String (List (String × String))
  pub pull_secret : Result String (List (String × String))
  pub secret : String → Result String (List (String × String))
  pub get_sources : AuthConfig → Option String

same_bool : Bool → Bool → Bool
same_bool true b = b
same_bool false b = not b

-- reflect.DeepEqual on specifications of a source.
unfoldable pub same_spec : SourceSpec → SourceSpec → Bool
unfolding same_bool
same_spec a b =
    str_eq a.sources_api_path b.sources_api_path
    && (str_eq a.source_name b.source_name
        && (same_option same_bool a.create_source b.create_source
            && same_option (λ (m n : ℕ). m == n) a.check_cycle b.check_cycle))

module _ (env : SessionEnv) where
  -- Has the specification changed since the last check?
  unfoldable pub is_spec_updated : Option SourceSpec → Bool
  unfolding same_spec
  is_spec_updated none = false
  is_spec_updated (some spec) = not (same_spec spec env.source_spec)

  noted_source : Checked × List Request → SourceStatus → Option SourceError × SourceStatus
  noted_source (checked, log) st = (
    checked.error,
    record st {
      source_defined = some checked.defined;
      source_error = elim checked.error [ some (failure e) ↦ e | some panicked ↦ "" | none ↦ "" ];
      last_source_check_time = env.now;
      requests = log;
    },
  )

  -- checkSource: the error of the check, if there is one, and the source.
  unfoldable pub check_source : SourceStatus → Option SourceError × SourceStatus
  unfolding is_spec_updated noted_source source_get_or_create check_cycle
  check_source st =
      let updated = is_spec_updated st.checked_spec in
      let st' = record st { checked_spec = some env.source_spec } in
      if not (str_eq env.source_name "")
        && (updated || check_cycle env.source_check_cycle env.now st.last_source_check_time)
      then noted_source
          (source_get_or_create env.api
            (record {
              source_name = env.source_name;
              cluster_id = env.cluster_id;
              create_source = env.create_source;
            })
            st.requests)
          st'
      else (none, st')
