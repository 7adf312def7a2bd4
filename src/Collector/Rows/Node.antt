-- ===== src/Collector/Rows/Node.antt =====
-- `nodeRow` of internal/collector/types.go: the row, its header and its columns.
use koku_metrics_operator.Base.{String, List, [], ◌∷◌}
use koku_metrics_operator.Collector.Rows.Dates.{DateTimes}

pub record NodeRow : Type 0 where
  pub dates : DateTimes
  pub node : String
  pub node_capacity_cpu_cores : String
  pub mode_capacity_cpu_core_seconds : String
  pub node_capacity_memory_bytes : String
  pub node_capacity_memory_byte_seconds : String
  pub node_role : String
  pub resource_id : String
  pub node_labels : String

unfoldable pub csv_header : List String
csv_header =
    "report_period_start" ∷ "report_period_end" ∷ "interval_start" ∷ "interval_end" ∷ "node"
    ∷ "node_labels" ∷ []

unfoldable pub csv_row : NodeRow → List String
csv_row r =
    r.dates.report_period_start ∷ r.dates.report_period_end ∷ r.dates.interval_start
    ∷ r.dates.interval_end ∷ r.node ∷ r.node_labels ∷ []
