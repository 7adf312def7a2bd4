-- ===== src/Controller/Retention.antt =====
-- The hours to query: setRetentionPeriod and getTimeRange of internal/controller/prometheus.go, and
-- the loop over days and hours in Reconcile of
-- internal/controller/costmanagementmetricsconfig_controller.go. Instants are in UTC.
pub mod Cover
pub mod Range
pub mod Preserved
use koku_metrics_operator.Base.{
  ℕ, zero, suc, ◌+◌, ◌-◌, ◌*◌, ◌/◌, String, str_eq, Bool, true, false, ◌&&◌, not, Option, none,
  some, List, [], ◌∷◌, ◌++◌, if◌then◌else◌, ltb, leb, ◌==◌, Result, ok, err,
}
use koku_metrics_operator.Base.Time.{
  Time, is_zero, truncate, second, minute, hour, day, hour_of, day_of, Location, utc, local,
}

abbrev pub fourteen_day_duration : ℕ
fourteen_day_duration = 14 * day

abbrev pub ninety_day_duration : ℕ
ninety_day_duration = 90 * day

-- What the API server and the parsers give for the monitoring configuration: reading the map, its
-- key `config.yaml`, the YAML and its `retention`, and `model.ParseDuration`, in nanoseconds.
pub record Monitoring : Type 0 where
  pub config_map : Result String (Option String)
  pub unmarshal : String → Result String String
  pub parse_duration : String → Result String ℕ

limited : Result String ℕ → ℕ
limited (err e) = fourteen_day_duration
limited (ok duration) = if ltb ninety_day_duration duration then ninety_day_duration else duration

configured : Monitoring → Result String String → ℕ
unfolding limited
configured m (err e) = fourteen_day_duration
configured m (ok retention) =
    if str_eq retention "" then fourteen_day_duration else limited (m.parse_duration retention)

from_config_map : Monitoring → Result String (Option String) → ℕ
unfolding configured
from_config_map m (err e) = fourteen_day_duration
from_config_map m (ok none) = fourteen_day_duration
from_config_map m (ok (some text)) = configured m (m.unmarshal text)

-- setRetentionPeriod: the new `retentionPeriod`.
unfoldable pub set_retention_period : Monitoring → ℕ
unfolding from_config_map
set_retention_period m = from_config_map m m.config_map

-- The fields of the resource and of the reconciler that the range depends on, or that it sets.
-- `collect_previous_data` is what the pointer refers to, `none` without one.
pub record RangeState : Type 0 where
  pub retention_period : ℕ
  pub collect_previous_data : Option Bool
  pub last_query_success_time : Time
  pub previous_data_collected : Bool
  pub initial_data_collection : Bool

abbrev is_true : Option Bool → Bool
is_true none = false
is_true (some b) = b

-- The start of the retention period before a start.
abbrev pub retained_from : ℕ → Time → Time
retained_from retention start = truncate (start - retention) day

-- The range that follows a failure to query: from the last success, within the retention.
resumed : ℕ → Time → Time → Time
resumed retention last start =
    if not (is_zero last) && ltb hour (start - last)
    then (if ltb last (start - retention) then retained_from retention start else last + hour)
    else start

-- getTimeRange
unfoldable pub get_time_range : Monitoring → Time → RangeState → (Time × Time) × RangeState
unfolding resumed
get_time_range m now st =
    let start = truncate now hour - hour in
    let end = start + (59 * minute + 59 * second) in
    let retention =
      if st.retention_period == 0 then set_retention_period m else st.retention_period in
    let st' = record st { retention_period = retention } in
    if is_true st.collect_previous_data && is_zero st.last_query_success_time
    then (
      (retained_from retention start, end),
      record st' { previous_data_collected = true; initial_data_collection = true },
    )
    else ((resumed retention st.last_query_success_time start, end), st')

-- The Location of the start of the range: `now().UTC()`, or that of LastQuerySuccessTime, which the
-- reconciliation has decoded from JSON and so has in Local.
resumed_location : ℕ → Time → Time → Location
resumed_location retention last start =
    if not (is_zero last) && ltb hour (start - last)
    then (if ltb last (start - retention) then utc else local)
    else utc

unfoldable pub range_location : Monitoring → Time → RangeState → Location
unfolding resumed_location
range_location m now st =
    let start = truncate now hour - hour in
    let retention =
      if st.retention_period == 0 then set_retention_period m else st.retention_period in
    if is_true st.collect_previous_data && is_zero st.last_query_success_time
    then utc
    else resumed_location retention st.last_query_success_time start

-- HOURS_IN_DAY
abbrev pub hours_in_day : ℕ
hours_in_day = 23

-- What the loops of Reconcile use of the rest: a query of the hour from an instant, which says
-- whether there was `ErrNoData`, and packaging.
pub record Loop (S : Type 0) : Type 0 where
  pub query : Time → S → S × Bool
  pub package_reports : S → S
  pub initial_data_collection : Bool
  pub end_time : Time

module _ {S : Type 0} (loop : Loop S) where
  -- Without data in the first hour of a day that is not the last, initial collection skips the day.
  skips : Time → Bool → Bool
  skips t no_data =
      no_data
      && (hour_of t == 0
          && (not (day_of t == day_of loop.end_time) && loop.initial_data_collection))

  -- The loop over the hours of a day, with `t` and the state where it ends.
  unfoldable pub collect_hours : ℕ → Time → S → Time × S
  unfolding skips
  collect_hours zero t s = (t, s)
  collect_hours (suc n) t s =
      let after = loop.query t s in
      let rest = collect_hours n (t + hour) after.0 in
      if skips t after.1 then (t, after.0) else rest

  hours_left : Time → ℕ
  hours_left start =
      let hours = (loop.end_time - start) / hour in
      if ltb hours_in_day hours then hours_in_day else hours

  -- After 96 hours of initial collection the reports are packaged, and `startTime` is set.
  package_often : Time → Time × S → Time × S
  package_often start_time (t, s) =
      if loop.initial_data_collection && (leb start_time t && t - start_time == 96 * hour)
      then (t, loop.package_reports s)
      else (start_time, s)

  -- The loop over days, from `start` and with the variable `startTime`.
  unfoldable pub collect_days : ℕ → Time → Time × S → S
  unfolding collect_hours hours_left package_often
  collect_days zero start (start_time, s) = s
  collect_days (suc fuel) start (start_time, s) =
      let rest =
        collect_days fuel (start + day)
          (package_often start_time (collect_hours (suc (hours_left start)) start s)) in
      if ltb loop.end_time start then s else rest

  unfoldable pub collect : Time → S → S
  unfolding collect_days
  collect start_time s =
      collect_days (suc ((loop.end_time - start_time) / day)) start_time (start_time, s)
