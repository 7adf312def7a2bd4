-- ===== src/Collector/Rows/NvidiaGpu.antt =====
-- `nvidiaGpuRow` of internal/collector/types.go: the row, its header and its columns.
use koku_metrics_operator.Base.{String, List, [], ◌∷◌}
use koku_metrics_operator.Collector.Rows.Dates.{DateTimes}

pub record NvidiaGpuRow : Type 0 where
  pub dates : DateTimes
  pub node : String
  pub namespace : String
  pub pod : String
  pub gpu_uuid : String
  pub gpu_model_name : String
  pub gpu_vendor_name : String
  pub gpu_memory_capacity_mib : String
  pub gpu_pod_uptime : String
  pub gpu_max_slices : String
  pub mig_instance_id : String
  pub mig_profile : String
  pub mig_strategy : String

unfoldable pub csv_header : List String
csv_header =
    "report_period_start" ∷ "report_period_end" ∷ "interval_start" ∷ "interval_end" ∷ "node"
    ∷ "namespace" ∷ "pod" ∷ "gpu_uuid" ∷ "gpu_model_name" ∷ "gpu_vendor_name"
    ∷ "gpu_memory_capacity_mib" ∷ "gpu_pod_uptime" ∷ "gpu_max_slices" ∷ "mig_instance_id"
    ∷ "mig_profile" ∷ "mig_strategy" ∷ []

unfoldable pub csv_row : NvidiaGpuRow → List String
csv_row r =
    r.dates.report_period_start ∷ r.dates.report_period_end ∷ r.dates.interval_start
    ∷ r.dates.interval_end ∷ r.node ∷ r.namespace ∷ r.pod ∷ r.gpu_uuid ∷ r.gpu_model_name
    ∷ r.gpu_vendor_name ∷ r.gpu_memory_capacity_mib ∷ r.gpu_pod_uptime ∷ r.gpu_max_slices
    ∷ r.mig_instance_id ∷ r.mig_profile ∷ r.mig_strategy ∷ []
