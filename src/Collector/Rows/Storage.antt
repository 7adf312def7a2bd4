-- ===== src/Collector/Rows/Storage.antt =====
-- `storageRow` of internal/collector/types.go: the row, its header and its columns.
use koku_metrics_operator.Base.{String, List, [], ◌∷◌}
use koku_metrics_operator.Collector.Rows.Dates.{DateTimes}

pub record StorageRow : Type 0 where
  pub dates : DateTimes
  pub namespace : String
  pub pod : String
  pub node : String
  pub persistent_volume_claim : String
  pub persistent_volume : String
  pub storage_class : String
  pub csi_driver : String
  pub csi_volume_handle : String
  pub persistent_volume_claim_capacity_bytes : String
  pub persistent_volume_claim_capacity_byte_seconds : String
  pub volume_request_storage_byte_seconds : String
  pub persistent_volume_claim_usage_byte_seconds : String
  pub persistent_volume_labels : String
  pub persistent_volume_claim_labels : String

unfoldable pub csv_header : List String
csv_header =
    "report_period_start" ∷ "report_period_end" ∷ "interval_start" ∷ "interval_end" ∷ "namespace"
    ∷ "pod" ∷ "node" ∷ "persistentvolumeclaim" ∷ "persistentvolume" ∷ "storageclass" ∷ "csi_driver"
    ∷ "csi_volume_handle" ∷ "persistentvolumeclaim_capacity_bytes"
    ∷ "persistentvolumeclaim_capacity_byte_seconds" ∷ "volume_request_storage_byte_seconds"
    ∷ "persistentvolumeclaim_usage_byte_seconds" ∷ "persistentvolume_labels"
    ∷ "persistentvolumeclaim_labels" ∷ []

unfoldable pub csv_row : StorageRow → List String
csv_row r =
    r.dates.report_period_start ∷ r.dates.report_period_end ∷ r.dates.interval_start
    ∷ r.dates.interval_end ∷ r.namespace ∷ r.pod ∷ r.node ∷ r.persistent_volume_claim
    ∷ r.persistent_volume ∷ r.storage_class ∷ r.csi_driver ∷ r.csi_volume_handle
    ∷ r.persistent_volume_claim_capacity_bytes ∷ r.persistent_volume_claim_capacity_byte_seconds
    ∷ r.volume_request_storage_byte_seconds ∷ r.persistent_volume_claim_usage_byte_seconds
    ∷ r.persistent_volume_labels ∷ r.persistent_volume_claim_labels ∷ []
