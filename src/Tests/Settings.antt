-- ===== src/Tests/Settings.antt =====
-- The theorems on the connection, the reflected specification and the credentials.
use koku_metrics_operator.Base.{
  ℕ, suc, ◌*◌, ◌≤◌, ◌≡◌, refl, String, str_eq, Bool, true, false, Option, none, some, if◌then◌else◌,
  List, [], ◌∷◌,
}
use koku_metrics_operator.Base.Time.{minute}
use koku_metrics_operator.Collector.Connection.{PrometheusSpec, Connection, Setters, get_prom_conn}
use koku_metrics_operator.Collector.Connection.Status.{IsConsistent}
use koku_metrics_operator.Controller.Package.{check_cycle}
use koku_metrics_operator.Controller.Reflect.{Spec, Status, reflect_spec}
use koku_metrics_operator.Controller.Reflect.Settled.{reflect_spec-idempotent}
use koku_metrics_operator.Controller.Authentication.{
  AuthType, basic, Auth, AuthStatus, Validated, set_authentication, validate_credentials,
}
use koku_metrics_operator.Controller.Authentication.Found.{
  IsReported, set_authentication-IsReported,
}
use koku_metrics_operator.Controller.Authentication.Cached.{
  validate_credentials-cached, validate_credentials-other_failure,
}

abbrev some_prometheus : PrometheusSpec
some_prometheus = record { svc_address = "https://thanos"; skip_tls_verification = false }

abbrev pub unconnected : Connection
unconnected = record {
  last_spec = none;
  has_config = false;
  has_conn = false;
  status = record {
    prometheus_configured = false;
    config_error = "no token";
    prometheus_connected = false;
    connection_error = "";
  };
}

abbrev pub working : Setters
working = record { set_config = λ s. none; set_connection = λ s. none; test_connection = λ s. none }

unconnected-IsConsistent : IsConsistent unconnected.status
unconnected-IsConsistent = record { config = λ f. absurd (cc); connection = λ f. absurd (cc) }

connects : (get_prom_conn working some_prometheus unconnected).0 ≡ none
unfolding get_prom_conn
connects = refl

abbrev pub some_spec : Spec
some_spec = record {
  api_url = "https://cloud.redhat.com";
  authentication_secret_name = "";
  token_url = "";
  auth_type = "token";
  validate_cert = some true;
  ingress_api_path = "";
  upload_toggle = some true;
  max_size = 100;
  max_reports = 30;
  upload_wait = none;
  upload_cycle = 5;
  sources_api_path = "";
  source_name = "cluster";
  create_source = some false;
  check_cycle = some 1440;
  svc_address = "";
  skip_tls_verification = some false;
  context_timeout = some 120;
  disable_cost_management = some false;
  disable_resource_optimization = some false;
}

abbrev pub empty_status : Status
empty_status = record {
  api_url = "";
  authentication_secret_name = "";
  token_url = "";
  auth_type = "";
  validate_cert = none;
  ingress_api_path = "";
  upload_toggle = none;
  max_size = none;
  max_reports = none;
  upload_wait = none;
  upload_cycle = none;
  sources_api_path = "";
  source_name = "";
  create_source = none;
  check_cycle = none;
  svc_address = "";
  skip_tls_verification = none;
  context_timeout = none;
  disable_cost_management = none;
  disable_resource_optimization = none;
}

reflect_spec-idempotent_example :
    (let once = reflect_spec 50 some_spec empty_status in reflect_spec 7 once.0 once.1 ≡ once)
reflect_spec-idempotent_example = reflect_spec-idempotent 50 7 some_spec empty_status

-- The API cannot be reached.
abbrev unreachable : Auth
unreachable = record {
  pull_secret_token = none;
  auth_secret = none;
  service_account_secret = none;
  access_token = none;
  sources = some "connection timed out";
  username = "user";
  password = "secret";
  secret_name = "auth";
}

abbrev new_status : AuthStatus
new_status = record {
  credentials_found = none;
  auth_error_message = "";
  valid_basic_auth = none;
  last_verification_time = none;
  deprecation_notice = "";
}

abbrev unvalidated : Validated
unvalidated = record { previous = none; status = new_status; requests = 0 }

set_authentication-IsReported_example :
    IsReported
      (set_authentication unreachable basic new_status).0
      (set_authentication unreachable basic new_status).1
set_authentication-IsReported_example = set_authentication-IsReported unreachable basic new_status

not_yet : check_cycle 1440 (200 * minute) (100 * minute) ≡ false
unfolding check_cycle
not_yet = refl

never : check_cycle 1440 (100 * minute) 0 ≡ true
unfolding check_cycle
never = refl

validate_credentials-cached_example :
    (let first = validate_credentials unreachable basic 1440 (100 * minute) unvalidated in
      (first.1.requests ≡ 1)
      × (validate_credentials unreachable basic 1440 (200 * minute) first.1
          ≡ (unreachable.sources, first.1)))
unfolding koku_metrics_operator.Controller.Authentication.previous_or_new
validate_credentials-cached_example =
    validate_credentials-cached unreachable unreachable 1440 (100 * minute) (200 * minute)
      unvalidated never not_yet refl refl

validate_credentials-other_failure_example :
    (let first = validate_credentials unreachable basic 1440 (100 * minute) unvalidated in
      ((first.0 ≡ none) × (first.1.status.valid_basic_auth ≡ some true))
      × ((validate_credentials unreachable basic 1440 (200 * minute) first.1).0
          ≡ some "connection timed out"))
unfolding koku_metrics_operator.Controller.Authentication.previous_or_new
    koku_metrics_operator.Base.Text.contains
validate_credentials-other_failure_example =
    validate_credentials-other_failure unreachable 1440 (100 * minute) (200 * minute) unvalidated
      "connection timed out" never not_yet refl refl
