-- ===== src/Collector/Decode.antt =====
-- getStruct of internal/collector/collector.go on each row type of internal/collector/types.go: the
-- values of a key are decoded into the fields by their tags, or by their names without regard to case.
-- All values are texts, which are decoded without an error, and a key that is missing leaves its field
-- empty.
pub mod Keys
use koku_metrics_operator.Base.{String}
use koku_metrics_operator.Base.Dict.{lookup}
use koku_metrics_operator.Collector.Results.{Values, get}
use koku_metrics_operator.Collector.Rows.Dates.{Range, new_dates}
use koku_metrics_operator.Collector.Rows.Node.{NodeRow}
use koku_metrics_operator.Collector.Rows.Namespace.{NamespaceRow}
use koku_metrics_operator.Collector.Rows.Pod.{PodRow}
use koku_metrics_operator.Collector.Rows.Storage.{StorageRow}
use koku_metrics_operator.Collector.Rows.Vm.{VmRow}
use koku_metrics_operator.Collector.Rows.NvidiaGpu.{NvidiaGpuRow}
use koku_metrics_operator.Collector.Rows.RosContainer.{RosContainerRow}
use koku_metrics_operator.Collector.Rows.RosNamespace.{RosNamespaceRow}

-- newNodeRow and getStruct
unfoldable pub node_row : Range → Values → NodeRow
unfolding new_dates lookup
node_row ts val = record {
  dates = new_dates ts;
  node = get "node" val;
  node_capacity_cpu_cores = get "node-capacity-cpu-cores" val;
  mode_capacity_cpu_core_seconds = get "node-capacity-cpu-core-seconds" val;
  node_capacity_memory_bytes = get "node-capacity-memory-bytes" val;
  node_capacity_memory_byte_seconds = get "node-capacity-memory-byte-seconds" val;
  node_role = get "node-role" val;
  resource_id = get "resource_id" val;
  node_labels = get "node_labels" val;
}

-- A nodeRow that nothing was assigned to.
abbrev pub no_node_row : NodeRow
no_node_row = record {
  dates = record {
    report_period_start = "";
    report_period_end = "";
    interval_start = "";
    interval_end = "";
  };
  node = "";
  node_capacity_cpu_cores = "";
  mode_capacity_cpu_core_seconds = "";
  node_capacity_memory_bytes = "";
  node_capacity_memory_byte_seconds = "";
  node_role = "";
  resource_id = "";
  node_labels = "";
}

-- newNamespaceRow and getStruct
unfoldable pub namespace_row : Range → Values → NamespaceRow
unfolding new_dates lookup
namespace_row ts val = record {
  dates = new_dates ts;
  namespace = get "namespace" val;
  namespace_labels = get "namespace_labels" val;
}

-- newPodRow and getStruct
unfoldable pub pod_row : Range → Values → PodRow
unfolding new_dates lookup
pod_row ts val = record {
  dates = new_dates ts;
  node_row = no_node_row;
  namespace = get "namespace" val;
  pod = get "pod" val;
  pod_usage_cpu_core_seconds = get "pod-usage-cpu-core-seconds" val;
  pod_request_cpu_core_seconds = get "pod-request-cpu-core-seconds" val;
  pod_limit_cpu_core_seconds = get "pod-limit-cpu-core-seconds" val;
  pod_usage_memory_byte_seconds = get "pod-usage-memory-byte-seconds" val;
  pod_request_memory_byte_seconds = get "pod-request-memory-byte-seconds" val;
  pod_limit_memory_byte_seconds = get "pod-limit-memory-byte-seconds" val;
  pod_labels = get "pod_labels" val;
}

-- newStorageRow and getStruct
unfoldable pub storage_row : Range → Values → StorageRow
unfolding new_dates lookup
storage_row ts val = record {
  dates = new_dates ts;
  namespace = get "namespace" val;
  pod = get "pod" val;
  node = get "node" val;
  persistent_volume_claim = get "persistentvolumeclaim" val;
  persistent_volume = get "persistentvolume" val;
  storage_class = get "storageclass" val;
  csi_driver = get "csi_driver" val;
  csi_volume_handle = get "csi_volume_handle" val;
  persistent_volume_claim_capacity_bytes = get "persistentvolumeclaim-capacity-bytes" val;
  persistent_volume_claim_capacity_byte_seconds =
      get "persistentvolumeclaim-capacity-byte-seconds" val;
  volume_request_storage_byte_seconds = get "persistentvolumeclaim-request-byte-seconds" val;
  persistent_volume_claim_usage_byte_seconds = get "persistentvolumeclaim-usage-byte-seconds" val;
  persistent_volume_labels = get "persistentvolume_labels" val;
  persistent_volume_claim_labels = get "persistentvolumeclaim_labels" val;
}

-- newVmRow and getStruct
unfoldable pub vm_row : Range → Values → VmRow
unfolding new_dates lookup
vm_row ts val = record {
  dates = new_dates ts;
  node = get "node" val;
  resource_id = get "resource_id" val;
  namespace = get "namespace" val;
  vm_name = get "name" val;
  instance_type = get "instance_type" val;
  os = get "os" val;
  guest_os_arch = get "guest_os_arch" val;
  guest_os_name = get "guest_os_name" val;
  guest_os_version_id = get "guest_os_version_id" val;
  uptime_seconds = get "vm_uptime_total_seconds" val;
  cpu_limit_cores = get "vm_cpu_limit_cores" val;
  cpu_limit_core_seconds = get "vm_cpu_limit_core_seconds" val;
  cpu_request_cores = get "vm_cpu_request_cores" val;
  cpu_request_core_seconds = get "vm_cpu_request_core_seconds" val;
  cpu_request_sockets = get "vm_cpu_request_sockets" val;
  cpu_request_socket_seconds = get "vm_cpu_request_socket_seconds" val;
  cpu_request_threads = get "vm_cpu_request_threads" val;
  cpu_request_thread_seconds = get "vm_cpu_request_thread_seconds" val;
  cpu_usage_seconds = get "vm_cpu_usage_total_seconds" val;
  memory_limit_bytes = get "vm_memory_limit_bytes" val;
  memory_limit_byte_seconds = get "vm_memory_limit_byte_seconds" val;
  memory_request_bytes = get "vm_memory_request_bytes" val;
  memory_request_byte_seconds = get "vm_memory_request_byte_seconds" val;
  memory_usage_bytes = get "vm_memory_usage_byte_seconds" val;
  device = get "device" val;
  volume_mode = get "volume_mode" val;
  persistent_volume_claim_name = get "persistentvolumeclaim_name" val;
  disk_allocated_size_bytes = get "vm_disk_allocated_size_byte_seconds" val;
  vm_labels = get "vm_labels" val;
}

-- newNvidiaGpuRow and getStruct
unfoldable pub nvidia_gpu_row : Range → Values → NvidiaGpuRow
unfolding new_dates lookup
nvidia_gpu_row ts val = record {
  dates = new_dates ts;
  node = get "node" val;
  namespace = get "namespace" val;
  pod = get "pod" val;
  gpu_uuid = get "gpu_uuid" val;
  gpu_model_name = get "model_name" val;
  gpu_vendor_name = get "vendor_name" val;
  gpu_memory_capacity_mib = get "gpu_memory_capacity_mib" val;
  gpu_pod_uptime = get "nvidia-gpu-pod-uptime-seconds" val;
  gpu_max_slices = get "nvidia-gpu-max-slices" val;
  mig_instance_id = get "mig_instance_id" val;
  mig_profile = get "mig_profile" val;
  mig_strategy = get "mig_strategy" val;
}

-- newRosContainerRow and getStruct
unfoldable pub ros_container_row : Range → Values → RosContainerRow
unfolding new_dates lookup
ros_container_row ts val = record {
  dates = new_dates ts;
  node_row = no_node_row;
  container_name = get "container_name" val;
  pod = get "pod" val;
  owner_name = get "owner_name" val;
  owner_kind = get "owner_kind" val;
  workload = get "workload" val;
  workload_type = get "workload_type" val;
  namespace = get "namespace" val;
  image_name = get "image_name" val;
  cpu_request_container_avg = get "cpu-request-container-avg" val;
  cpu_request_container_sum = get "cpu-request-container-sum" val;
  cpu_limit_container_avg = get "cpu-limit-container-avg" val;
  cpu_limit_container_sum = get "cpu-limit-container-sum" val;
  cpu_usage_container_avg = get "cpu-usage-container-avg" val;
  cpu_usage_container_min = get "cpu-usage-container-min" val;
  cpu_usage_container_max = get "cpu-usage-container-max" val;
  cpu_usage_container_sum = get "cpu-usage-container-sum" val;
  cpu_throttle_container_avg = get "cpu-throttle-container-avg" val;
  cpu_throttle_container_max = get "cpu-throttle-container-max" val;
  cpu_throttle_container_min = get "cpu-throttle-container-min" val;
  cpu_throttle_container_sum = get "cpu-throttle-container-sum" val;
  memory_request_container_avg = get "memory-request-container-avg" val;
  memory_request_container_sum = get "memory-request-container-sum" val;
  memory_limit_container_avg = get "memory-limit-container-avg" val;
  memory_limit_container_sum = get "memory-limit-container-sum" val;
  memory_usage_container_avg = get "memory-usage-container-avg" val;
  memory_usage_container_min = get "memory-usage-container-min" val;
  memory_usage_container_max = get "memory-usage-container-max" val;
  memory_usage_container_sum = get "memory-usage-container-sum" val;
  memory_rss_usage_container_avg = get "memory-rss-usage-container-avg" val;
  memory_rss_usage_container_min = get "memory-rss-usage-container-min" val;
  memory_rss_usage_container_max = get "memory-rss-usage-container-max" val;
  memory_rss_usage_container_sum = get "memory-rss-usage-container-sum" val;
  accelerator_model_name = get "accelerator_model_name" val;
  accelerator_profile_name = get "accelerator_profile_name" val;
  accelerator_core_usage_percentage_min = get "accelerator-core-usage-percentage-min" val;
  accelerator_core_usage_percentage_max = get "accelerator-core-usage-percentage-max" val;
  accelerator_core_usage_percentage_avg = get "accelerator-core-usage-percentage-avg" val;
  accelerator_memory_copy_percentage_min = get "accelerator-memory-copy-percentage-min" val;
  accelerator_memory_copy_percentage_max = get "accelerator-memory-copy-percentage-max" val;
  accelerator_memory_copy_percentage_avg = get "accelerator-memory-copy-percentage-avg" val;
  accelerator_frame_buffer_usage_min = get "accelerator-frame-buffer-usage-min" val;
  accelerator_frame_buffer_usage_max = get "accelerator-frame-buffer-usage-max" val;
  accelerator_frame_buffer_usage_avg = get "accelerator-frame-buffer-usage-avg" val;
}

-- newRosNamespaceRow and getStruct
unfoldable pub ros_namespace_row : Range → Values → RosNamespaceRow
unfolding new_dates lookup
ros_namespace_row ts val = record {
  dates = new_dates ts;
  namespace = get "namespace" val;
  cpu_request_sum = get "cpu-request-namespace-sum" val;
  cpu_limit_sum = get "cpu-limit-namespace-sum" val;
  cpu_usage_avg = get "cpu-usage-namespace-avg" val;
  cpu_usage_max = get "cpu-usage-namespace-max" val;
  cpu_usage_min = get "cpu-usage-namespace-min" val;
  cpu_throttle_avg = get "cpu-throttle-namespace-avg" val;
  cpu_throttle_max = get "cpu-throttle-namespace-max" val;
  cpu_throttle_min = get "cpu-throttle-namespace-min" val;
  memory_request_sum = get "memory-request-namespace-sum" val;
  memory_limit_sum = get "memory-limit-namespace-sum" val;
  memory_usage_avg = get "memory-usage-namespace-avg" val;
  memory_usage_max = get "memory-usage-namespace-max" val;
  memory_usage_min = get "memory-usage-namespace-min" val;
  memory_rss_usage_avg = get "memory-rss-usage-namespace-avg" val;
  memory_rss_usage_max = get "memory-rss-usage-namespace-max" val;
  memory_rss_usage_min = get "memory-rss-usage-namespace-min" val;
  pods_running_max = get "pods-running-namespace-max" val;
  pods_running_avg = get "pods-running-namespace-avg" val;
  pods_total_max = get "pods-total-namespace-max" val;
  pods_total_avg = get "pods-total-namespace-avg" val;
}
