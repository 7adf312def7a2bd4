-- ===== src/Collector/Rows/Vm.antt =====
-- `vmRow` of internal/collector/types.go: the row, its header and its columns.
use koku_metrics_operator.Base.{String, List, [], ◌∷◌}
use koku_metrics_operator.Collector.Rows.Dates.{DateTimes}

pub record VmRow : Type 0 where
  pub dates : DateTimes
  pub node : String
  pub resource_id : String
  pub namespace : String
  pub vm_name : String
  pub instance_type : String
  pub os : String
  pub guest_os_arch : String
  pub guest_os_name : String
  pub guest_os_version_id : String
  pub uptime_seconds : String
  pub cpu_limit_cores : String
  pub cpu_limit_core_seconds : String
  pub cpu_request_cores : String
  pub cpu_request_core_seconds : String
  pub cpu_request_sockets : String
  pub cpu_request_socket_seconds : String
  pub cpu_request_threads : String
  pub cpu_request_thread_seconds : String
  pub cpu_usage_seconds : String
  pub memory_limit_bytes : String
  pub memory_limit_byte_seconds : String
  pub memory_request_bytes : String
  pub memory_request_byte_seconds : String
  pub memory_usage_bytes : String
  pub device : String
  pub volume_mode : String
  pub persistent_volume_claim_name : String
  pub disk_allocated_size_bytes : String
  pub vm_labels : String

unfoldable pub csv_header : List String
csv_header =
    "report_period_start" ∷ "report_period_end" ∷ "interval_start" ∷ "interval_end" ∷ "node"
    ∷ "resource_id" ∷ "namespace" ∷ "vm_name" ∷ "vm_instance_type" ∷ "vm_os" ∷ "vm_guest_os_arch"
    ∷ "vm_guest_os_name" ∷ "vm_guest_os_version" ∷ "vm_uptime_total_seconds" ∷ "vm_cpu_limit_cores"
    ∷ "vm_cpu_limit_core_seconds" ∷ "vm_cpu_request_cores" ∷ "vm_cpu_request_core_seconds"
    ∷ "vm_cpu_request_sockets" ∷ "vm_cpu_request_socket_seconds" ∷ "vm_cpu_request_threads"
    ∷ "vm_cpu_request_thread_seconds" ∷ "vm_cpu_usage_total_seconds" ∷ "vm_memory_limit_bytes"
    ∷ "vm_memory_limit_byte_seconds" ∷ "vm_memory_request_bytes" ∷ "vm_memory_request_byte_seconds"
    ∷ "vm_memory_usage_byte_seconds" ∷ "vm_device" ∷ "vm_volume_mode"
    ∷ "vm_persistentvolumeclaim_name" ∷ "vm_disk_allocated_size_byte_seconds" ∷ "vm_labels" ∷ []

unfoldable pub csv_row : VmRow → List String
csv_row r =
    r.dates.report_period_start ∷ r.dates.report_period_end ∷ r.dates.interval_start
    ∷ r.dates.interval_end ∷ r.node ∷ r.resource_id ∷ r.namespace ∷ r.vm_name ∷ r.instance_type
    ∷ r.os ∷ r.guest_os_arch ∷ r.guest_os_name ∷ r.guest_os_version_id ∷ r.uptime_seconds
    ∷ r.cpu_limit_cores ∷ r.cpu_limit_core_seconds ∷ r.cpu_request_cores
    ∷ r.cpu_request_core_seconds ∷ r.cpu_request_sockets ∷ r.cpu_request_socket_seconds
    ∷ r.cpu_request_threads ∷ r.cpu_request_thread_seconds ∷ r.cpu_usage_seconds
    ∷ r.memory_limit_bytes ∷ r.memory_limit_byte_seconds ∷ r.memory_request_bytes
    ∷ r.memory_request_byte_seconds ∷ r.memory_usage_bytes ∷ r.device ∷ r.volume_mode
    ∷ r.persistent_volume_claim_name ∷ r.disk_allocated_size_bytes ∷ r.vm_labels ∷ []
