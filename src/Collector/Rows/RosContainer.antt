-- ===== src/Collector/Rows/RosContainer.antt =====
-- `rosContainerRow` of internal/collector/types.go: the row, its header and its columns.
use koku_metrics_operator.Base.{String, List, [], ◌∷◌}
use koku_metrics_operator.Collector.Rows.Dates.{DateTimes}
use koku_metrics_operator.Collector.Rows.Node.{NodeRow}

pub record RosContainerRow : Type 0 where
  pub dates : DateTimes
  pub node_row : NodeRow
  pub container_name : String
  pub pod : String
  pub owner_name : String
  pub owner_kind : String
  pub workload : String
  pub workload_type : String
  pub namespace : String
  pub image_name : String
  pub cpu_request_container_avg : String
  pub cpu_request_container_sum : String
  pub cpu_limit_container_avg : String
  pub cpu_limit_container_sum : String
  pub cpu_usage_container_avg : String
  pub cpu_usage_container_min : String
  pub cpu_usage_container_max : String
  pub cpu_usage_container_sum : String
  pub cpu_throttle_container_avg : String
  pub cpu_throttle_container_max : String
  pub cpu_throttle_container_min : String
  pub cpu_throttle_container_sum : String
  pub memory_request_container_avg : String
  pub memory_request_container_sum : String
  pub memory_limit_container_avg : String
  pub memory_limit_container_sum : String
  pub memory_usage_container_avg : String
  pub memory_usage_container_min : String
  pub memory_usage_container_max : String
  pub memory_usage_container_sum : String
  pub memory_rss_usage_container_avg : String
  pub memory_rss_usage_container_min : String
  pub memory_rss_usage_container_max : String
  pub memory_rss_usage_container_sum : String
  pub accelerator_model_name : String
  pub accelerator_profile_name : String
  pub accelerator_core_usage_percentage_min : String
  pub accelerator_core_usage_percentage_max : String
  pub accelerator_core_usage_percentage_avg : String
  pub accelerator_memory_copy_percentage_min : String
  pub accelerator_memory_copy_percentage_max : String
  pub accelerator_memory_copy_percentage_avg : String
  pub accelerator_frame_buffer_usage_min : String
  pub accelerator_frame_buffer_usage_max : String
  pub accelerator_frame_buffer_usage_avg : String

unfoldable pub csv_header : List String
csv_header =
    "report_period_start" ∷ "report_period_end" ∷ "interval_start" ∷ "interval_end"
    ∷ "container_name" ∷ "pod" ∷ "owner_name" ∷ "owner_kind" ∷ "workload" ∷ "workload_type"
    ∷ "namespace" ∷ "image_name" ∷ "node" ∷ "resource_id" ∷ "cpu_request_container_avg"
    ∷ "cpu_request_container_sum" ∷ "cpu_limit_container_avg" ∷ "cpu_limit_container_sum"
    ∷ "cpu_usage_container_avg" ∷ "cpu_usage_container_min" ∷ "cpu_usage_container_max"
    ∷ "cpu_usage_container_sum" ∷ "cpu_throttle_container_avg" ∷ "cpu_throttle_container_max"
    ∷ "cpu_throttle_container_min" ∷ "cpu_throttle_container_sum" ∷ "memory_request_container_avg"
    ∷ "memory_request_container_sum" ∷ "memory_limit_container_avg" ∷ "memory_limit_container_sum"
    ∷ "memory_usage_container_avg" ∷ "memory_usage_container_min" ∷ "memory_usage_container_max"
    ∷ "memory_usage_container_sum" ∷ "memory_rss_usage_container_avg"
    ∷ "memory_rss_usage_container_min" ∷ "memory_rss_usage_container_max"
    ∷ "memory_rss_usage_container_sum" ∷ "accelerator_model_name" ∷ "accelerator_profile_name"
    ∷ "accelerator_core_usage_percentage_min" ∷ "accelerator_core_usage_percentage_max"
    ∷ "accelerator_core_usage_percentage_avg" ∷ "accelerator_memory_copy_percentage_min"
    ∷ "accelerator_memory_copy_percentage_max" ∷ "accelerator_memory_copy_percentage_avg"
    ∷ "accelerator_frame_buffer_usage_min" ∷ "accelerator_frame_buffer_usage_max"
    ∷ "accelerator_frame_buffer_usage_avg" ∷ []

unfoldable pub csv_row : RosContainerRow → List String
csv_row r =
    r.dates.report_period_start ∷ r.dates.report_period_end ∷ r.dates.interval_start
    ∷ r.dates.interval_end ∷ r.container_name ∷ r.pod ∷ r.owner_name ∷ r.owner_kind ∷ r.workload
    ∷ r.workload_type ∷ r.namespace ∷ r.image_name ∷ r.node_row.node ∷ r.node_row.resource_id
    ∷ r.cpu_request_container_avg ∷ r.cpu_request_container_sum ∷ r.cpu_limit_container_avg
    ∷ r.cpu_limit_container_sum ∷ r.cpu_usage_container_avg ∷ r.cpu_usage_container_min
    ∷ r.cpu_usage_container_max ∷ r.cpu_usage_container_sum ∷ r.cpu_throttle_container_avg
    ∷ r.cpu_throttle_container_max ∷ r.cpu_throttle_container_min ∷ r.cpu_throttle_container_sum
    ∷ r.memory_request_container_avg ∷ r.memory_request_container_sum ∷ r.memory_limit_container_avg
    ∷ r.memory_limit_container_sum ∷ r.memory_usage_container_avg ∷ r.memory_usage_container_min
    ∷ r.memory_usage_container_max ∷ r.memory_usage_container_sum ∷ r.memory_rss_usage_container_avg
    ∷ r.memory_rss_usage_container_min ∷ r.memory_rss_usage_container_max
    ∷ r.memory_rss_usage_container_sum ∷ r.accelerator_model_name ∷ r.accelerator_profile_name
    ∷ r.accelerator_core_usage_percentage_min ∷ r.accelerator_core_usage_percentage_max
    ∷ r.accelerator_core_usage_percentage_avg ∷ r.accelerator_memory_copy_percentage_min
    ∷ r.accelerator_memory_copy_percentage_max ∷ r.accelerator_memory_copy_percentage_avg
    ∷ r.accelerator_frame_buffer_usage_min ∷ r.accelerator_frame_buffer_usage_max
    ∷ r.accelerator_frame_buffer_usage_avg ∷ []
