-- ===== src/Tests/Schedule.antt =====
-- The theorems on the hours to query, their retries and the cycles, applied to small runs.
use koku_metrics_operator.Base.{
  ◌+◌, ◌*◌, ◌≤◌, ◌≡◌, refl, true, false, some, List, [], ◌∷◌, ◌++◌, ok, arith,
}
use koku_metrics_operator.Base.Time.{Time, second, minute, hour, day}
use koku_metrics_operator.Collector.Generate.{failure, no_data}
use koku_metrics_operator.Controller.Retention.{
  Loop, collect, Monitoring, RangeState, get_time_range, ninety_day_duration,
}
use koku_metrics_operator.Controller.Retention.Cover.{visit, collect-covers}
use koku_metrics_operator.Controller.Retention.Range.{longest_back, get_time_range-bounded}
use koku_metrics_operator.Controller.Query.{PromStatus}
use koku_metrics_operator.Controller.Query.Retry.{
  at_utc, at_local, hour_failures, Attempt, failures, count_of, NoSuccess, repeat, failures-limit,
  failures-unlimited,
}

-- A day in the year 1.
abbrev some_day : Time
some_day = 300 * day

-- Queries that note their hours, and never find data.
abbrev noting : Loop (List Time)
noting = record {
  query = λ t hours. (t ∷ hours, true);
  package_reports = λ hours. hours;
  initial_data_collection = false;
  end_time = some_day + 30 * hour + 3599 * second;
}

collect-covers_example :
    collect noting (some_day + 3 * hour) [] ≡ visit noting 28 (some_day + 3 * hour) []
collect-covers_example = collect-covers noting refl (some_day + 3 * hour) []

abbrev pub some_monitoring : Monitoring
some_monitoring = record {
  config_map = ok (some "prometheusK8s");
  unmarshal = λ text. ok "120d";
  parse_duration = λ text. ok (120 * day);
}

abbrev pub new_resource : RangeState
new_resource = record {
  retention_period = 0;
  collect_previous_data = some true;
  last_query_success_time = 0;
  previous_data_collected = false;
  initial_data_collection = false;
}

get_time_range-bounded_example :
    (let r = get_time_range some_monitoring (some_day + 90 * minute) new_resource in
      ((r.0.1 + second ≡ some_day + hour) × (r.0.0 ≤ r.0.1))
      × ((some_day + hour ≤ r.0.0 + longest_back + hour)
          × (r.1.retention_period ≤ ninety_day_duration)))
get_time_range-bounded_example =
    get_time_range-bounded some_monitoring (some_day + 90 * minute) new_resource (omega arith)
      (omega arith)

abbrev pub fresh : PromStatus
fresh = record {
  last_query_start_time = 0;
  last_query_success_time = 0;
  data_collected = false;
  data_collection_message = "";
  tracker = [];
}

-- Failures of two hours in turn.
abbrev some_attempts : List Attempt
some_attempts =
    (at_utc 7, (failure "timeout", 7))
    ∷ (at_utc 8, (no_data, 8))
    ∷ (at_local 7, (failure "timeout", 7))
    ∷ (at_local 9, (failure "timeout", 9))
    ∷ []

some_attempts-NoSuccess : NoSuccess some_attempts
unfolding NoSuccess
some_attempts-NoSuccess = ((refl, refl), ((refl, refl), ((refl, refl), ((refl, refl), tt))))

failures-limit_example :
    (failures (at_utc 7) some_attempts fresh + count_of (at_utc 7) fresh.tracker ≤ 5)
    × (failures (at_local 7) some_attempts fresh + count_of (at_local 7) fresh.tracker ≤ 5)
    × (hour_failures 7 some_attempts fresh ≤ 10)
unfolding count_of
failures-limit_example =
    failures-limit 7 some_attempts fresh some_attempts-NoSuccess (omega arith) (omega arith)

-- An hour that fails in UTC and then in Local fails ten times.
fails_ten_times :
    hour_failures 7
      (repeat 6 (at_utc 7, (failure "timeout", 7)) ++ repeat 6 (at_local 7, (failure "timeout", 7)))
      fresh
    ≡ 10
unfolding hour_failures repeat koku_metrics_operator.Controller.Query.collect_prom_stats
    koku_metrics_operator.Base.Time.same_stamp
fails_ten_times = refl

failures-unlimited_example :
    failures (at_utc 7) (repeat 9 (at_utc 7, (failure "timeout", 8))) fresh ≡ 9
unfolding count_of
failures-unlimited_example = failures-unlimited 9 (at_utc 7) 8 "timeout" fresh refl refl refl
