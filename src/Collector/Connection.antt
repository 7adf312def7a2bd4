-- ===== src/Collector/Connection.antt =====
-- GetPromConn and statusHelper of internal/collector/prometheus.go: when the configuration and the
-- connection are made anew, and what the status says of them. The setters and the tester of the
-- connection are arguments; `ps`, the specification of the last call, is part of the state.
pub mod Status
use koku_metrics_operator.Base.{
  String, ◌<>◌, str_eq, Bool, true, false, ◌||◌, not, Option, none, some, Result, ok, err,
  if◌then◌else◌,
}

-- What PrometheusSpec has for a connection.
pub record PrometheusSpec : Type 0 where
  pub svc_address : String
  pub skip_tls_verification : Bool

pub record ConnectionStatus : Type 0 where
  pub prometheus_configured : Bool
  pub config_error : String
  pub prometheus_connected : Bool
  pub connection_error : String

-- The collector has a configuration or a connection, and the status and the last specification.
pub record Connection : Type 0 where
  pub last_spec : Option PrometheusSpec
  pub has_config : Bool
  pub has_conn : Bool
  pub status : ConnectionStatus

-- PrometheusConfigurationSetter, PrometheusConnectionSetter and PrometheusConnectionTester: each
-- gives nil or an error.
pub record Setters : Type 0 where
  pub set_config : PrometheusSpec → Option String
  pub set_connection : PrometheusSpec → Option String
  pub test_connection : PrometheusSpec → Option String

-- statusHelper for `statusConfiguration`.
status_configuration : Option String → ConnectionStatus → ConnectionStatus
status_configuration (some e) st = record st { prometheus_configured = false; config_error = e }
status_configuration none st = record st { prometheus_configured = true; config_error = "" }

-- statusHelper for `statusConnection`.
status_connection : Option String → ConnectionStatus → ConnectionStatus
status_connection (some e) st = record st { prometheus_connected = false; connection_error = e }
status_connection none st = record st { prometheus_connected = true; connection_error = "" }

-- Is the specification another one than in the last call?
unfoldable pub is_updated : Option PrometheusSpec → PrometheusSpec → Bool
is_updated none spec = true
is_updated (some last) spec =
    not (str_eq last.svc_address spec.svc_address) || elim last.skip_tls_verification [
      | true ↦ not spec.skip_tls_verification
      | false ↦ spec.skip_tls_verification
    ]

-- The error of a call, and the state.
abbrev pub Outcome : Type 0
Outcome = Option String × Connection

-- The last step, the test of the connection.
tested : Option String → Connection → Outcome
unfolding status_connection
tested none c = (none, record c { status = status_connection none c.status })
tested (some e) c = (
  some ("prometheus test query failed: " <> e),
  record c { status = status_connection (some e) c.status },
)

connected : Setters → PrometheusSpec → Option String → Connection → Outcome
unfolding status_configuration tested
connected setters spec none c =
    tested (setters.test_connection spec)
      (record c { has_conn = true; status = status_configuration none c.status })
connected setters spec (some e) c =
    (some e, record c { status = status_configuration (some e) c.status })

-- From the second step on.
connect : Setters → PrometheusSpec → Bool → Connection → Outcome
unfolding connected tested
connect setters spec updated c =
    if updated || (not c.has_conn || not c.status.prometheus_connected)
    then connected setters spec (setters.set_connection spec) c
    else tested (setters.test_connection spec) c

configured : Setters → PrometheusSpec → Bool → Option String → Connection → Outcome
unfolding status_configuration connect
configured setters spec updated none c =
    connect setters spec updated
      (record c { has_config = true; status = status_configuration none c.status })
configured setters spec updated (some e) c = (
  some ("cannot get prometheus configuration: " <> e),
  record c { status = status_configuration (some e) c.status },
)

-- GetPromConn
unfoldable pub get_prom_conn : Setters → PrometheusSpec → Connection → Outcome
unfolding is_updated configured connect
get_prom_conn setters spec c =
    let updated = is_updated c.last_spec spec in
    let c' = record c { last_spec = some spec } in
    if updated || (not c.has_config || not c.status.prometheus_configured)
    then configured setters spec updated (setters.set_config spec) c'
    else connect setters spec updated c'
