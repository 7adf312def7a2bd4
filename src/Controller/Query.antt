-- ===== src/Controller/Query.antt =====
-- Which ranges are queried again: isQueryNeeded and collectPromStats of
-- internal/controller/prometheus.go. The map `retryTracker` is a list of its entries. Its
-- keys are instants with their Location, as those of the map are.
pub mod Retry
use koku_metrics_operator.Base.{
  ℕ, zero, suc, ◌+◌, ◌≡◌, refl, String, ◌<>◌, Bool, true, false, Option, none, some, List, [], ◌∷◌,
  Result, ok, err, if◌then◌else◌, ltb, ◌==◌,
}
use koku_metrics_operator.Base.Time.{Time, Stamp, same_stamp}
use koku_metrics_operator.Collector.Generate.{
  Generated, reports_written, no_data, ros_no_enabled_namespaces, failure,
}

abbrev pub Tracker : Type 0
Tracker = List (Stamp × ℕ)

unfoldable pub retries : Stamp → Tracker → Option ℕ
retries t [] = none
retries t ((u, n) ∷ rest) = if same_stamp u t then some n else retries t rest

unfoldable pub set_retries : Stamp → ℕ → Tracker → Tracker
set_retries t n [] = (t, n) ∷ []
set_retries t n ((u, m) ∷ rest) =
    let tail = set_retries t n rest in if same_stamp u t then (t, n) ∷ rest else (u, m) ∷ tail

get_or_zero : Option ℕ → ℕ
get_or_zero none = 0
get_or_zero (some n) = n

needed : Stamp → Tracker → Option ℕ → Bool × Tracker
unfolding set_retries
needed start tracker none = (true, set_retries start 0 tracker)
needed start tracker (some n) = (ltb n 5, tracker)

-- isQueryNeeded
unfoldable pub is_query_needed : Stamp → Tracker → Bool × Tracker
unfolding needed retries
is_query_needed start tracker = needed start tracker (retries start tracker)

pub record PromStatus : Type 0 where
  pub last_query_start_time : Time
  pub last_query_success_time : Time
  pub data_collected : Bool
  pub data_collection_message : String
  pub tracker : Tracker

abbrev no_data_message : String
no_data_message = "No data to report for the hour queried."

abbrev no_namespaces_message : String
no_namespaces_message =
    "No namespaces contain the `cost_management_optimizations=\"true\"` label, so no resource optimization metrics were collected."

-- The tracker is indexed by the start that the range has after GenerateReports, which may move it.
record_result : Stamp → Stamp → Generated → PromStatus → PromStatus
unfolding set_retries retries get_or_zero
record_result t moved reports_written st = record st {
  data_collected = true;
  data_collection_message = "";
  last_query_success_time = t.instant;
  tracker = [];
}
record_result t moved no_data st = record st {
  data_collected = false;
  last_query_success_time = t.instant;
  data_collection_message = no_data_message;
}
record_result t moved ros_no_enabled_namespaces st = record st {
  last_query_success_time = t.instant;
  data_collected = true;
  data_collection_message = no_namespaces_message;
}
record_result t moved (failure e) st = record st {
  data_collected = false;
  tracker = set_retries moved (suc (get_or_zero (retries moved st.tracker))) st.tracker;
  data_collection_message = "error: " <> e;
}

-- collectPromStats for the range from `start`: the result of GenerateReports, if it was called, and
-- the status. GenerateReports gives its result and the instant of the start that it leaves in the
-- range, which it has by reference; the Location stays.
unfoldable pub collect_prom_stats :
    (Time → Generated × Time) → Stamp → PromStatus → Option Generated × PromStatus
unfolding is_query_needed record_result
collect_prom_stats generate_reports start st =
    let (should_query, tracker) = is_query_needed start st.tracker in
    let st' = record st { last_query_start_time = start.instant; tracker = tracker } in
    let (result, moved) = generate_reports start.instant in
    if st.last_query_success_time == start.instant
    then (none, st)
    else if should_query
    then (some result, record_result start (record start { instant = moved }) result st')
    else (none, st')
