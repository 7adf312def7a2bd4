-- ===== src/Collector/Rows/Namespace.antt =====
-- `namespaceRow` of internal/collector/types.go: the row, its header and its columns.
use koku_metrics_operator.Base.{String, List, [], ◌∷◌}
use koku_metrics_operator.Collector.Rows.Dates.{DateTimes}

pub record NamespaceRow : Type 0 where
  pub dates : DateTimes
  pub namespace : String
  pub namespace_labels : String

unfoldable pub csv_header : List String
csv_header =
    "report_period_start" ∷ "report_period_end" ∷ "interval_start" ∷ "interval_end" ∷ "namespace"
    ∷ "namespace_labels" ∷ []

unfoldable pub csv_row : NamespaceRow → List String
csv_row r =
    r.dates.report_period_start ∷ r.dates.report_period_end ∷ r.dates.interval_start
    ∷ r.dates.interval_end ∷ r.namespace ∷ r.namespace_labels ∷ []
