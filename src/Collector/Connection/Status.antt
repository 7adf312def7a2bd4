-- ===== src/Collector/Connection/Status.antt =====
-- What the status says after a call.
use koku_metrics_operator.Base.{
  ◌≡◌, refl, String, Bool, true, ◌||◌, not, Option, none, some, Bool-cases, inl, inr, arith,
  some-ne-none,
}
use koku_metrics_operator.Collector.Connection.{
  PrometheusSpec, ConnectionStatus, Connection, Setters, status_configuration, status_connection,
  is_updated, Outcome, tested, connected, connect, configured, get_prom_conn,
}

-- A status that says `configured` or `connected` holds no error of that kind.
pub record IsConsistent (st : ConnectionStatus) : Type 0 where
  pub config : st.prometheus_configured ≡ true → st.config_error ≡ ""
  pub connection : st.prometheus_connected ≡ true → st.connection_error ≡ ""

status_configuration-IsConsistent :
    (o : Option String) (st : ConnectionStatus)
    → IsConsistent st
    → IsConsistent (status_configuration o st)
unfolding status_configuration
status_configuration-IsConsistent none st h = record {
  config = λ _. refl;
  connection = h.connection;
}
status_configuration-IsConsistent (some e) st h = record {
  config = λ f. absurd (cc);
  connection = h.connection;
}

status_connection-IsConsistent :
    (o : Option String) (st : ConnectionStatus)
    → IsConsistent st
    → IsConsistent (status_connection o st)
unfolding status_connection
status_connection-IsConsistent none st h = record { config = h.config; connection = λ _. refl }
status_connection-IsConsistent (some e) st h = record {
  config = h.config;
  connection = λ f. absurd (cc);
}

-- The status of a call that has no error.
pub record IsReady (spec : PrometheusSpec) (r : Connection) : Type 0 where
  pub configured_now : r.status.prometheus_configured ≡ true
  pub connected_now : r.status.prometheus_connected ≡ true
  pub has_config_now : r.has_config ≡ true
  pub has_conn_now : r.has_conn ≡ true
  pub noted : r.last_spec ≡ some spec

-- A result is consistent, and ready unless it has an error.
IsSound : PrometheusSpec → Outcome → Type 0
IsSound spec (e, c) = IsConsistent c.status × (e ≡ none → IsReady spec c)

-- What is known before the connection is made.
record IsConfigured (spec : PrometheusSpec) (c : Connection) : Type 0 where
  consistent : IsConsistent c.status
  configured_before : c.status.prometheus_configured ≡ true
  has_config_before : c.has_config ≡ true
  noted : c.last_spec ≡ some spec

tested-IsSound :
    (spec : PrometheusSpec) (o : Option String) (c : Connection)
    → IsConfigured spec c
    → c.has_conn ≡ true
    → IsSound spec (tested o c)
unfolding tested status_connection IsSound
tested-IsSound spec none c h conn = (
  status_connection-IsConsistent none c.status h.consistent,
  λ _. record {
    configured_now = h.configured_before;
    connected_now = refl;
    has_config_now = h.has_config_before;
    has_conn_now = conn;
    noted = h.noted;
  },
)
tested-IsSound spec (some e) c h conn =
    (status_connection-IsConsistent (some e) c.status h.consistent, λ f. absurd (some-ne-none _ f))

connected-IsSound :
    (setters : Setters) (spec : PrometheusSpec) (o : Option String) (c : Connection)
    → IsConfigured spec c
    → IsSound spec (connected setters spec o c)
unfolding connected status_configuration IsSound
connected-IsSound setters spec none c h =
    tested-IsSound spec (setters.test_connection spec)
      (record c { has_conn = true; status = status_configuration none c.status })
      (record {
        consistent = status_configuration-IsConsistent none c.status h.consistent;
        configured_before = refl;
        has_config_before = h.has_config_before;
        noted = h.noted;
      })
      refl
connected-IsSound setters spec (some e) c h = (
  status_configuration-IsConsistent (some e) c.status h.consistent,
  λ f. absurd (some-ne-none _ f),
)

connect-IsSound :
    (setters : Setters) (spec : PrometheusSpec) (updated : Bool) (c : Connection)
    → IsConfigured spec c
    → IsSound spec (connect setters spec updated c)
unfolding connect IsSound
connect-IsSound setters spec updated c h =
    elim (Bool-cases (updated || (not c.has_conn || not c.status.prometheus_connected))) [
      | inl e ↦ rw (e, connect) (connected-IsSound setters spec (setters.set_connection spec) c h)
      | inr e ↦
          let conn : c.has_conn ≡ true = ground (arith, e) in
          rw (e, connect) (tested-IsSound spec (setters.test_connection spec) c h conn)
    ]

configured-IsSound :
    (setters : Setters) (spec : PrometheusSpec) (updated : Bool) (o : Option String)
    (c : Connection)
    → IsConsistent c.status
    → c.last_spec ≡ some spec
    → IsSound spec (configured setters spec updated o c)
unfolding configured status_configuration IsSound
configured-IsSound setters spec updated none c h noted =
    connect-IsSound setters spec updated
      (record c { has_config = true; status = status_configuration none c.status })
      (record {
        consistent = status_configuration-IsConsistent none c.status h;
        configured_before = refl;
        has_config_before = refl;
        noted = noted;
      })
configured-IsSound setters spec updated (some e) c h noted =
    (status_configuration-IsConsistent (some e) c.status h, λ f. absurd (some-ne-none _ f))

get_prom_conn-IsSound :
    (setters : Setters) (spec : PrometheusSpec) (c : Connection)
    → IsConsistent c.status
    → IsSound spec (get_prom_conn setters spec c)
unfolding get_prom_conn IsSound
get_prom_conn-IsSound setters spec c h =
    let updated = is_updated c.last_spec spec in
    let c' = record c { last_spec = some spec } in
    elim (Bool-cases (updated || (not c.has_config || not c.status.prometheus_configured))) [
      | inl e ↦
          rw (e, get_prom_conn)
            (configured-IsSound setters spec updated (setters.set_config spec) c' h refl)
      | inr e ↦
          rw (e, get_prom_conn)
            (connect-IsSound setters spec updated c' (record {
              consistent = h;
              configured_before = ground (arith, e);
              has_config_before = ground (arith, e);
              noted = refl;
            }))
    ]

-- GetPromConn leads from a status that holds no error where it says that all is well to such a status.
pub get_prom_conn-IsConsistent :
    (setters : Setters) (spec : PrometheusSpec) (c : Connection)
    → IsConsistent c.status
    → IsConsistent (get_prom_conn setters spec c).1.status
unfolding IsSound
get_prom_conn-IsConsistent setters spec c h = (get_prom_conn-IsSound setters spec c h).0

-- If the status holds no error where it says that all is well, and GetPromConn gives no error, then
-- the collector has a configuration and a connection, the status says so, and the specification is
-- noted for the next call.
pub get_prom_conn-IsReady :
    (setters : Setters) (spec : PrometheusSpec) (c : Connection)
    → IsConsistent c.status
    → (get_prom_conn setters spec c).0 ≡ none
    → IsReady spec (get_prom_conn setters spec c).1
unfolding IsSound
get_prom_conn-IsReady setters spec c h = (get_prom_conn-IsSound setters spec c h).1
