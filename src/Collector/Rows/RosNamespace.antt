-- ===== src/Collector/Rows/RosNamespace.antt =====
-- `rosNamespaceRow` of internal/collector/types.go: the row, its header and its columns.
use koku_metrics_operator.Base.{String, List, [], ◌∷◌}
use koku_metrics_operator.Collector.Rows.Dates.{DateTimes}

pub record RosNamespaceRow : Type 0 where
  pub dates : DateTimes
  pub namespace : String
  pub cpu_request_sum : String
  pub cpu_limit_sum : String
  pub cpu_usage_avg : String
  pub cpu_usage_max : String
  pub cpu_usage_min : String
  pub cpu_throttle_avg : String
  pub cpu_throttle_max : String
  pub cpu_throttle_min : String
  pub memory_request_sum : String
  pub memory_limit_sum : String
  pub memory_usage_avg : String
  pub memory_usage_max : String
  pub memory_usage_min : String
  pub memory_rss_usage_avg : String
  pub memory_rss_usage_max : String
  pub memory_rss_usage_min : String
  pub pods_running_max : String
  pub pods_running_avg : String
  pub pods_total_max : String
  pub pods_total_avg : String

unfoldable pub csv_header : List String
csv_header =
    "report_period_start" ∷ "report_period_end" ∷ "interval_start" ∷ "interval_end" ∷ "namespace"
    ∷ "cpu_request_namespace_sum" ∷ "cpu_limit_namespace_sum" ∷ "cpu_usage_namespace_avg"
    ∷ "cpu_usage_namespace_max" ∷ "cpu_usage_namespace_min" ∷ "cpu_throttle_namespace_avg"
    ∷ "cpu_throttle_namespace_max" ∷ "cpu_throttle_namespace_min" ∷ "memory_request_namespace_sum"
    ∷ "memory_limit_namespace_sum" ∷ "memory_usage_namespace_avg" ∷ "memory_usage_namespace_max"
    ∷ "memory_usage_namespace_min" ∷ "memory_rss_usage_namespace_avg"
    ∷ "memory_rss_usage_namespace_max" ∷ "memory_rss_usage_namespace_min"
    ∷ "namespace_running_pods_max" ∷ "namespace_running_pods_avg" ∷ "namespace_total_pods_max"
    ∷ "namespace_total_pods_avg" ∷ []

unfoldable pub csv_row : RosNamespaceRow → List String
csv_row r =
    r.dates.report_period_start ∷ r.dates.report_period_end ∷ r.dates.interval_start
    ∷ r.dates.interval_end ∷ r.namespace ∷ r.cpu_request_sum ∷ r.cpu_limit_sum ∷ r.cpu_usage_avg
    ∷ r.cpu_usage_max ∷ r.cpu_usage_min ∷ r.cpu_throttle_avg ∷ r.cpu_throttle_max
    ∷ r.cpu_throttle_min ∷ r.memory_request_sum ∷ r.memory_limit_sum ∷ r.memory_usage_avg
    ∷ r.memory_usage_max ∷ r.memory_usage_min ∷ r.memory_rss_usage_avg ∷ r.memory_rss_usage_max
    ∷ r.memory_rss_usage_min ∷ r.pods_running_max ∷ r.pods_running_avg ∷ r.pods_total_max
    ∷ r.pods_total_avg ∷ []
