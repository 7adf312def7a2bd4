-- ===== src/Controller/Authentication.antt =====
-- setAuthentication and validateCredentials of
-- internal/controller/costmanagementmetricsconfig_controller.go. Reading a secret with its checks, a
-- request for an access token and a request to the Sources API are arguments: each gives nil or an
-- error.
pub mod Found
pub mod Cached
use koku_metrics_operator.Base.{
  ℕ, suc, String, ◌<>◌, str_eq, Bool, true, false, ◌&&◌, not, Option, none, some, if◌then◌else◌,
}
use koku_metrics_operator.Base.Text.{contains}
use koku_metrics_operator.Base.Time.{Time}
use koku_metrics_operator.Controller.Package.{check_cycle}

pub data AuthType : Type 0 where
  token basic service_account : AuthType

-- The authentication status; a pointer is what it refers to.
pub record AuthStatus : Type 0 where
  pub credentials_found : Option Bool
  pub auth_error_message : String
  pub valid_basic_auth : Option Bool
  pub last_verification_time : Option Time
  pub deprecation_notice : String

-- previousAuthValidation
pub record Validation : Type 0 where
  pub secret_name : String
  pub username : String
  pub password : String
  pub error : Option String
  pub timestamp : Time

-- GetPullSecretToken, GetAuthSecret, GetServiceAccountSecret, GetAccessToken and GetSources.
pub record Auth : Type 0 where
  pub pull_secret_token : Option String
  pub auth_secret : Option String
  pub service_account_secret : Option String
  pub access_token : Option String
  pub sources : Option String
  pub username : String
  pub password : String
  pub secret_name : String

deprecated : String
deprecated =
    "Basic authentication is deprecated and will be removed after December 31, 2024. Please switch to service-account authentication."

not_found : Option String → AuthStatus → Option String × AuthStatus
not_found none st = (none, st)
not_found (some e) st =
    (some e, record st { credentials_found = some false; auth_error_message = e })

not_found_basic : Option String → AuthStatus → Option String × AuthStatus
not_found_basic none st = (none, st)
not_found_basic (some e) st = (
  some e,
  record st {
    credentials_found = some false;
    auth_error_message = e;
    valid_basic_auth = some false;
  },
)

with_secret : Auth → AuthType → AuthStatus → Option String × AuthStatus
unfolding not_found not_found_basic deprecated
with_secret auth basic st =
    not_found_basic auth.auth_secret (record st { deprecation_notice = deprecated })
with_secret auth _ st =
    not_found auth.service_account_secret
      (record st { valid_basic_auth = none; last_verification_time = none })

auth_type_text : AuthType → String
auth_type_text token = "token"
auth_type_text basic = "basic"
auth_type_text service_account = "service-account"

by_type : Auth → AuthType → AuthStatus → Option String × AuthStatus
unfolding not_found not_found_basic with_secret auth_type_text
by_type auth token st =
    not_found auth.pull_secret_token (record st {
      valid_basic_auth = none;
      auth_error_message = "";
      last_verification_time = none;
    })
by_type auth other st =
    if str_eq auth.secret_name ""
    then not_found_basic
        (some
          ("no authentication secret name set when using " <> (auth_type_text other <> " auth")))
        st
    else with_secret auth other st

-- setAuthentication: its error and the status.
unfoldable pub set_authentication : Auth → AuthType → AuthStatus → Option String × AuthStatus
unfolding by_type
set_authentication auth auth_type st =
    by_type auth auth_type (record st { deprecation_notice = ""; credentials_found = some true })

-- The previous validation, the status and the number of requests to the Sources API.
pub record Validated : Type 0 where
  pub previous : Option Validation
  pub status : AuthStatus
  pub requests : ℕ

by_service_account : Option String → Validated → Option String × Validated
by_service_account (some e) v = (
  some e,
  record v {
    status = record (v.status) {
      auth_error_message = "failed to obtain service-account token: " <> e;
    };
  },
)
by_service_account none v =
    (none, record v { status = record (v.status) { auth_error_message = "" } })

-- The answer to a request that was sent: only an error with 401 counts as one.
answered : String → Time → Option String → AuthStatus → Option String × AuthStatus
answered secret_name now none st = (
  none,
  record st {
    last_verification_time = some now;
    auth_error_message = "";
    valid_basic_auth = some true;
  },
)
answered secret_name now (some e) st =
    if contains e "401"
    then (
      some e,
      record st {
        last_verification_time = some now;
        auth_error_message =
            "console.redhat.com credentials are invalid. Correct the username/password in `"
            <> (secret_name
                <> "`. Updated credentials will be re-verified during the next reconciliation.");
        valid_basic_auth = some false;
      },
    )
    else (
      none,
      record st {
        last_verification_time = some now;
        auth_error_message = "";
        valid_basic_auth = some true;
      },
    )

-- A previousAuthValidation with nothing in it.
abbrev pub no_validation : Validation
no_validation = record {
  secret_name = "";
  username = "";
  password = "";
  error = none;
  timestamp = 0;
}

unfoldable pub previous_or_new : Option Validation → Validation
previous_or_new none = no_validation
previous_or_new (some p) = p

-- The request, whose error is kept.
request : Auth → Time → Validated → Option String × Validated
unfolding answered previous_or_new
request auth now v =
    let (e, status) = answered auth.secret_name now auth.sources v.status in
    (
      e,
      record {
        previous = some (record {
          secret_name = (previous_or_new v.previous).secret_name;
          username = auth.username;
          password = auth.password;
          error = auth.sources;
          timestamp = now;
        });
        status = status;
        requests = suc v.requests;
      },
    )

by_basic : Auth → ℕ → Time → Validated → Option String × Validated
unfolding request previous_or_new
by_basic auth cycle now v =
    let p = previous_or_new v.previous in
    if str_eq p.password auth.password
      && (str_eq p.username auth.username && not (check_cycle cycle now p.timestamp))
    then (p.error, record v { previous = some p })
    else request auth now v

-- validateCredentials at the present time: its error and the state.
unfoldable pub validate_credentials :
    Auth → AuthType → ℕ → Time → Validated → Option String × Validated
unfolding by_basic by_service_account
validate_credentials auth token cycle now v = (none, v)
validate_credentials auth service_account cycle now v = by_service_account auth.access_token v
validate_credentials auth basic cycle now v = by_basic auth cycle now v
