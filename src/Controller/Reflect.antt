-- ===== src/Controller/Reflect.antt =====
-- StringReflectSpec and ReflectSpec of
-- internal/controller/costmanagementmetricsconfig_controller.go: the status takes over the
-- specification of the resource, or a default. A pointer is what it refers to; a cycle below 0 counts
-- as 0, which is below the least cycle as well.
pub mod Settled
use koku_metrics_operator.Base.{
  ℕ, ◌%◌, String, str_eq, Bool, true, false, ◌||◌, not, Option, none, some, if◌then◌else◌, ltb,
}

-- StringReflectSpec: the new status item, and whether it counts as changed.
unfoldable pub string_reflect_spec : String → String → String → String × Bool
string_reflect_spec spec_item status_item default_val =
    if str_eq status_item "" || not (str_eq spec_item status_item)
    then (
      if not (str_eq spec_item "")
          then spec_item
          else if not (str_eq default_val "")
          then default_val
          else spec_item,
      true,
    )
    else (status_item, false)

-- The defaults of api/v1beta1/defaults.go.
abbrev pub default_api_url : String
default_api_url = "https://console.redhat.com"

abbrev pub old_default_api_url : String
old_default_api_url = "https://cloud.redhat.com"

abbrev default_ingress_path : String
default_ingress_path = "/api/ingress/v1/upload"

abbrev default_sources_path : String
default_sources_path = "/api/sources/v1.0/"

abbrev default_prometheus_svc_address : String
default_prometheus_svc_address = "https://thanos-querier.openshift-monitoring.svc:9091"

abbrev default_token_url : String
default_token_url =
    "https://sso.redhat.com/auth/realms/redhat-external/protocol/openid-connect/token"

-- The least cycle for an upload, `sixtyInt64`.
abbrev pub sixty : ℕ
sixty = 60

-- The fields of the specification that the status reflects.
pub record Spec : Type 0 where
  pub api_url : String
  pub authentication_secret_name : String
  pub token_url : String
  pub auth_type : String
  pub validate_cert : Option Bool
  pub ingress_api_path : String
  pub upload_toggle : Option Bool
  pub max_size : ℕ
  pub max_reports : ℕ
  pub upload_wait : Option ℕ
  pub upload_cycle : ℕ
  pub sources_api_path : String
  pub source_name : String
  pub create_source : Option Bool
  pub check_cycle : Option ℕ
  pub svc_address : String
  pub skip_tls_verification : Option Bool
  pub context_timeout : Option ℕ
  pub disable_cost_management : Option Bool
  pub disable_resource_optimization : Option Bool

pub record Status : Type 0 where
  pub api_url : String
  pub authentication_secret_name : String
  pub token_url : String
  pub auth_type : String
  pub validate_cert : Option Bool
  pub ingress_api_path : String
  pub upload_toggle : Option Bool
  pub max_size : Option ℕ
  pub max_reports : Option ℕ
  pub upload_wait : Option ℕ
  pub upload_cycle : Option ℕ
  pub sources_api_path : String
  pub source_name : String
  pub create_source : Option Bool
  pub check_cycle : Option ℕ
  pub svc_address : String
  pub skip_tls_verification : Option Bool
  pub context_timeout : Option ℕ
  pub disable_cost_management : Option Bool
  pub disable_resource_optimization : Option Bool

-- The wait of the specification, or that of the status, or a new one of below 35 seconds.
unfoldable pub upload_wait : ℕ → Option ℕ → Option ℕ → Option ℕ
upload_wait random (some wait) status_wait = some wait
upload_wait random none (some wait) = some wait
upload_wait random none none = some (random % 35)

unfoldable pub least_cycle : ℕ → ℕ
least_cycle cycle = if ltb cycle sixty then sixty else cycle

unfoldable pub api_url_spec : String → String
api_url_spec url = if str_eq url old_default_api_url then default_api_url else url

-- ReflectSpec, with a random number: the specification and the status afterwards.
unfoldable pub reflect_spec : ℕ → Spec → Status → Spec × Status
unfolding string_reflect_spec upload_wait least_cycle api_url_spec
reflect_spec random spec status =
    let cycle = least_cycle spec.upload_cycle in
    (
      record spec { upload_cycle = cycle },
      record {
        api_url =
            (string_reflect_spec (api_url_spec spec.api_url) status.api_url default_api_url).0;
        authentication_secret_name =
            (string_reflect_spec spec.authentication_secret_name status.authentication_secret_name
              "").0;
        token_url = (string_reflect_spec spec.token_url status.token_url default_token_url).0;
        auth_type = spec.auth_type;
        validate_cert = spec.validate_cert;
        ingress_api_path =
            (string_reflect_spec spec.ingress_api_path status.ingress_api_path
              default_ingress_path).0;
        upload_toggle = spec.upload_toggle;
        max_size = some spec.max_size;
        max_reports = some spec.max_reports;
        upload_wait = upload_wait random spec.upload_wait status.upload_wait;
        upload_cycle = some cycle;
        sources_api_path =
            (string_reflect_spec spec.sources_api_path status.sources_api_path
              default_sources_path).0;
        source_name = (string_reflect_spec spec.source_name status.source_name "").0;
        create_source = spec.create_source;
        check_cycle = spec.check_cycle;
        svc_address =
            (string_reflect_spec spec.svc_address status.svc_address
              default_prometheus_svc_address).0;
        skip_tls_verification = spec.skip_tls_verification;
        context_timeout = spec.context_timeout;
        disable_cost_management = spec.disable_cost_management;
        disable_resource_optimization = spec.disable_resource_optimization;
      },
    )
