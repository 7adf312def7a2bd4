-- ===== src/Crhchttp.antt =====
-- Requests to console.redhat.com: internal/crhchttp/http_cloud_dot_redhat.go and config.go there. What
-- net/http and the JSON decoder do is a parameter.
pub mod Scrub
pub mod Hidden
use koku_metrics_operator.Base.{
  ℕ, String, ◌<>◌, str_eq, Bool, true, false, ◌&&◌, ◌||◌, not, Option, none, some, List, [], ◌∷◌,
  map, Result, ok, err, ◌>>=◌, wrap_error, if◌then◌else◌, ltb, leb, ◌==◌,
}
use koku_metrics_operator.Base.Time.{Time}
use koku_metrics_operator.Base.Decimal.{itoa}
use koku_metrics_operator.Base.Text.{after}
use koku_metrics_operator.Base.Dict.{lookup, insert}
use koku_metrics_operator.Controller.Authentication.{AuthType, token, basic, service_account}
use koku_metrics_operator.Crhchttp.Scrub.{scrub_authorization}

pub record ServiceAccountData : Type 0 where
  pub client_id : String
  pub client_secret : String

-- AuthConfig, less the client and a field that nothing reads.
pub record AuthConfig : Type 0 where
  pub cluster_id : String
  pub authentication : AuthType
  pub bearer_token_string : String
  pub basic_auth_user : String
  pub basic_auth_password : String
  pub validate_cert : Bool
  pub operator_commit : String
  pub service_account_data : ServiceAccountData

pub record HttpRequest : Type 0 where
  pub method : String
  pub uri : String
  pub header : List (String × String)
  pub body : String

-- `dump` is what httputil.DumpResponse gives.
pub record HttpResponse : Type 0 where
  pub status_code : ℕ
  pub request_id : String
  pub body : String
  pub dump : Result String String

-- AuthError
pub record AuthError : Type 0 where
  pub error_type : String
  pub description : String

-- The client sends with or without validation of certificates.
pub record Http : Type 0 where
  pub new_request_error : String → String → Option String
  pub basic_authorization : String → String → String
  pub dump_request : HttpRequest → Result String String
  pub send : Bool → HttpRequest → Result String HttpResponse
  pub status_text : ℕ → String
  pub encode : List (String × String) → String
  pub decode_error : String → Result String AuthError
  pub decode_token : String → Result String String

-- What Upload gives back.
pub record Uploaded : Type 0 where
  pub status : String
  pub time : Time
  pub request_id : String
  pub error : Option String

abbrev bearer : AuthConfig → String
bearer auth = "Bearer " <> auth.bearer_token_string

module _ (http : Http) where
  -- The headers of the kind of authentication.
  unfoldable pub set_authorization :
      AuthConfig → AuthType → List (String × String) → List (String × String)
  unfolding insert
  set_authorization auth basic header =
      insert "Authorization"
        (http.basic_authorization auth.basic_auth_user auth.basic_auth_password) header
  set_authorization auth service_account header = insert "Authorization" (bearer auth) header
  set_authorization auth token header =
      insert "User-Agent"
        ("cost-mgmt-operator/" <> (auth.operator_commit <> (" cluster/" <> auth.cluster_id)))
        (insert "Authorization" (bearer auth) header)

  -- SetupRequest: the request, and what is logged of it.
  unfoldable pub setup_request :
      AuthConfig → String → String → String → String → Result String (HttpRequest × Option String)
  unfolding set_authorization scrub_authorization insert
  setup_request auth content_type method uri body = elim (http.new_request_error method uri) [
    | some e ↦ err ("could not create request: " <> e)
    | none ↦
        let header : List (String × String) =
          if str_eq content_type "" then [] else insert "Content-Type" content_type [] in
        let req : HttpRequest = record {
          method = method;
          uri = uri;
          header = set_authorization auth auth.authentication header;
          body = body;
        } in
        ok (
          req,
          elim (http.dump_request req) [ err e ↦ none | ok dump ↦ some (scrub_authorization dump) ],
        )
  ]

  -- ProcessResponse on the body that was found.
  unfoldable pub by_status : ℕ → String → Result String String
  unfolding itoa
  by_status code body =
      if leb 300 code || ltb code 200
      then err ("status: " <> (itoa code <> (" | error response: " <> body)))
      else if leb 200 code && ltb code 300
      then ok body
      else err ("unexpected response: " <> itoa code)

  -- The body is what follows the first empty line of the dump.
  unfoldable pub read_dump : ℕ → Option String → Result String String
  unfolding by_status
  read_dump code none =
      err "failed to read response body: DumpResponse split length does not equal 2"
  read_dump code (some body) = by_status code body

  unfoldable pub process_response : HttpResponse → Result String String
  unfolding read_dump after
  process_response resp = elim resp.dump [
    | err e ↦ err ("failed to dump response body: " <> e)
    | ok dump ↦ read_dump resp.status_code (after dump "\r\n\r\n")
  ]

  abbrev not_sent : Time → String → Uploaded
  not_sent now e = record { status = ""; time = now; request_id = ""; error = some e }

  abbrev uploaded_at : String → Time → Time → HttpResponse → Result String String → Uploaded
  uploaded_at status now later resp (err e) = record {
    status = status;
    time = now;
    request_id = resp.request_id;
    error = some e;
  }
  uploaded_at status now later resp (ok body) = record {
    status = status;
    time = later;
    request_id = resp.request_id;
    error = none;
  }

  -- Upload from the present time to the time of the answer, with what it sent. The answer's kind
  -- decides the error alone, and its status is given back in any case.
  unfoldable pub upload :
      AuthConfig → String → String → String → String → Time → Time → Uploaded × Option HttpRequest
  unfolding setup_request process_response itoa
  upload auth content_type method uri body now later =
      elim (setup_request auth content_type method uri body) [
        | err e ↦ (not_sent now ("could not setup the request: " <> e), none)
        | ok (req, logged) ↦ elim (http.send auth.validate_cert req) [
          | err e ↦ (not_sent now ("could not send the request: " <> e), some req)
          | ok resp ↦ (
            uploaded_at (itoa resp.status_code <> (" " <> http.status_text resp.status_code)) now
                later resp (process_response resp),
            some req,
          )
        ]
      ]

  token_answer : AuthConfig → HttpResponse → Option String × AuthConfig
  unfolding itoa
  token_answer auth resp =
      if not (resp.status_code == 200)
      then (elim (http.decode_error resp.body) [
        | err e ↦ (
          some (
              "status: "
              <> (itoa resp.status_code <> (", failed to unmarshal error response: " <> e))),
          auth,
        )
        | ok e ↦ (
          some (
              "status: "
              <> (itoa resp.status_code
                  <> (", error: " <> (e.error_type <> (", description: " <> e.description))))),
          auth,
        )
      ])
      else (elim (http.decode_token resp.body) [
        | err e ↦ (some ("failed to unmarshal response: " <> e), auth)
        | ok access_token ↦ (none, record auth { bearer_token_string = access_token })
      ])

  request_token : AuthConfig → String → Option String × AuthConfig
  unfolding token_answer
  request_token auth token_url = elim (http.new_request_error "POST" token_url) [
    | some e ↦ (some ("failed to construct HTTP request: " <> e), auth)
    | none ↦
        let values =
          ("client_id", auth.service_account_data.client_id)
          ∷ ("client_secret", auth.service_account_data.client_secret)
          ∷ ("grant_type", "client_credentials")
          ∷ ("scope", "api.console")
          ∷ [] in
        let req : HttpRequest = record {
          method = "POST";
          uri = token_url;
          header = ("Content-Type", "application/x-www-form-urlencoded") ∷ [];
          body = http.encode values;
        } in
        elim (http.send auth.validate_cert req) [
          | err e ↦ (some ("failed to make HTTP request to acquire token: " <> e), auth)
          | ok resp ↦ token_answer auth resp
        ]
  ]

  -- GetAccessToken: its error, and the configuration with the token.
  unfoldable pub get_access_token : AuthConfig → String → Option String × AuthConfig
  unfolding request_token
  get_access_token auth token_url = elim auth.authentication [
    | service_account ↦ request_token auth token_url
    | basic ↦ (none, auth)
    | token ↦ (none, auth)
  ]
