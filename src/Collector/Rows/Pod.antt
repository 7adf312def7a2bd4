-- ===== src/Collector/Rows/Pod.antt =====
-- `podRow` of internal/collector/types.go: the row, its header and its columns.
use koku_metrics_operator.Base.{String, List, [], ◌∷◌}
use koku_metrics_operator.Collector.Rows.Dates.{DateTimes}
use koku_metrics_operator.Collector.Rows.Node.{NodeRow}

pub record PodRow : Type 0 where
  pub dates : DateTimes
  pub node_row : NodeRow
  pub namespace : String
  pub pod : String
  pub pod_usage_cpu_core_seconds : String
  pub pod_request_cpu_core_seconds : String
  pub pod_limit_cpu_core_seconds : String
  pub pod_usage_memory_byte_seconds : String
  pub pod_request_memory_byte_seconds : String
  pub pod_limit_memory_byte_seconds : String
  pub pod_labels : String

unfoldable pub csv_header : List String
csv_header =
    "report_period_start" ∷ "report_period_end" ∷ "interval_start" ∷ "interval_end" ∷ "node"
    ∷ "namespace" ∷ "pod" ∷ "pod_usage_cpu_core_seconds" ∷ "pod_request_cpu_core_seconds"
    ∷ "pod_limit_cpu_core_seconds" ∷ "pod_usage_memory_byte_seconds"
    ∷ "pod_request_memory_byte_seconds" ∷ "pod_limit_memory_byte_seconds"
    ∷ "node_capacity_cpu_cores" ∷ "node_capacity_cpu_core_seconds" ∷ "node_capacity_memory_bytes"
    ∷ "node_capacity_memory_byte_seconds" ∷ "node_role" ∷ "resource_id" ∷ "pod_labels" ∷ []

unfoldable pub csv_row : PodRow → List String
csv_row r =
    r.dates.report_period_start ∷ r.dates.report_period_end ∷ r.dates.interval_start
    ∷ r.dates.interval_end ∷ r.node_row.node ∷ r.namespace ∷ r.pod ∷ r.pod_usage_cpu_core_seconds
    ∷ r.pod_request_cpu_core_seconds ∷ r.pod_limit_cpu_core_seconds
    ∷ r.pod_usage_memory_byte_seconds ∷ r.pod_request_memory_byte_seconds
    ∷ r.pod_limit_memory_byte_seconds ∷ r.node_row.node_capacity_cpu_cores
    ∷ r.node_row.mode_capacity_cpu_core_seconds ∷ r.node_row.node_capacity_memory_bytes
    ∷ r.node_row.node_capacity_memory_byte_seconds ∷ r.node_row.node_role ∷ r.node_row.resource_id
    ∷ r.pod_labels ∷ []
