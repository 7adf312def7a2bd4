-- ===== src/Collector/Decode/Keys.antt =====
-- The keys that the row types of internal/collector/types.go are decoded from, by their tags.
use koku_metrics_operator.Base.{String, List, [], ◌∷◌}

unfoldable pub node_keys : List String
node_keys =
    "node" ∷ "node-capacity-cpu-cores" ∷ "node-capacity-cpu-core-seconds"
    ∷ "node-capacity-memory-bytes" ∷ "node-capacity-memory-byte-seconds" ∷ "node-role"
    ∷ "resource_id" ∷ "node_labels" ∷ []

unfoldable pub namespace_keys : List String
namespace_keys = "namespace" ∷ "namespace_labels" ∷ []

unfoldable pub pod_keys : List String
pod_keys =
    "namespace" ∷ "pod" ∷ "pod-usage-cpu-core-seconds" ∷ "pod-request-cpu-core-seconds"
    ∷ "pod-limit-cpu-core-seconds" ∷ "pod-usage-memory-byte-seconds"
    ∷ "pod-request-memory-byte-seconds" ∷ "pod-limit-memory-byte-seconds" ∷ "pod_labels" ∷ []

unfoldable pub storage_keys : List String
storage_keys =
    "namespace" ∷ "pod" ∷ "node" ∷ "persistentvolumeclaim" ∷ "persistentvolume" ∷ "storageclass"
    ∷ "csi_driver" ∷ "csi_volume_handle" ∷ "persistentvolumeclaim-capacity-bytes"
    ∷ "persistentvolumeclaim-capacity-byte-seconds" ∷ "persistentvolumeclaim-request-byte-seconds"
    ∷ "persistentvolumeclaim-usage-byte-seconds" ∷ "persistentvolume_labels"
    ∷ "persistentvolumeclaim_labels" ∷ []

unfoldable pub vm_keys : List String
vm_keys =
    "node" ∷ "resource_id" ∷ "namespace" ∷ "name" ∷ "instance_type" ∷ "os" ∷ "guest_os_arch"
    ∷ "guest_os_name" ∷ "guest_os_version_id" ∷ "vm_uptime_total_seconds" ∷ "vm_cpu_limit_cores"
    ∷ "vm_cpu_limit_core_seconds" ∷ "vm_cpu_request_cores" ∷ "vm_cpu_request_core_seconds"
    ∷ "vm_cpu_request_sockets" ∷ "vm_cpu_request_socket_seconds" ∷ "vm_cpu_request_threads"
    ∷ "vm_cpu_request_thread_seconds" ∷ "vm_cpu_usage_total_seconds" ∷ "vm_memory_limit_bytes"
    ∷ "vm_memory_limit_byte_seconds" ∷ "vm_memory_request_bytes" ∷ "vm_memory_request_byte_seconds"
    ∷ "vm_memory_usage_byte_seconds" ∷ "device" ∷ "volume_mode" ∷ "persistentvolumeclaim_name"
    ∷ "vm_disk_allocated_size_byte_seconds" ∷ "vm_labels" ∷ []

unfoldable pub nvidia_gpu_keys : List String
nvidia_gpu_keys =
    "node" ∷ "namespace" ∷ "pod" ∷ "gpu_uuid" ∷ "model_name" ∷ "vendor_name"
    ∷ "gpu_memory_capacity_mib" ∷ "nvidia-gpu-pod-uptime-seconds" ∷ "nvidia-gpu-max-slices"
    ∷ "mig_instance_id" ∷ "mig_profile" ∷ "mig_strategy" ∷ []

unfoldable pub ros_container_keys : List String
ros_container_keys =
    "container_name" ∷ "pod" ∷ "owner_name" ∷ "owner_kind" ∷ "workload" ∷ "workload_type"
    ∷ "namespace" ∷ "image_name" ∷ "cpu-request-container-avg" ∷ "cpu-request-container-sum"
    ∷ "cpu-limit-container-avg" ∷ "cpu-limit-container-sum" ∷ "cpu-usage-container-avg"
    ∷ "cpu-usage-container-min" ∷ "cpu-usage-container-max" ∷ "cpu-usage-container-sum"
    ∷ "cpu-throttle-container-avg" ∷ "cpu-throttle-container-max" ∷ "cpu-throttle-container-min"
    ∷ "cpu-throttle-container-sum" ∷ "memory-request-container-avg" ∷ "memory-request-container-sum"
    ∷ "memory-limit-container-avg" ∷ "memory-limit-container-sum" ∷ "memory-usage-container-avg"
    ∷ "memory-usage-container-min" ∷ "memory-usage-container-max" ∷ "memory-usage-container-sum"
    ∷ "memory-rss-usage-container-avg" ∷ "memory-rss-usage-container-min"
    ∷ "memory-rss-usage-container-max" ∷ "memory-rss-usage-container-sum" ∷ "accelerator_model_name"
    ∷ "accelerator_profile_name" ∷ "accelerator-core-usage-percentage-min"
    ∷ "accelerator-core-usage-percentage-max" ∷ "accelerator-core-usage-percentage-avg"
    ∷ "accelerator-memory-copy-percentage-min" ∷ "accelerator-memory-copy-percentage-max"
    ∷ "accelerator-memory-copy-percentage-avg" ∷ "accelerator-frame-buffer-usage-min"
    ∷ "accelerator-frame-buffer-usage-max" ∷ "accelerator-frame-buffer-usage-avg" ∷ []

unfoldable pub ros_namespace_keys : List String
ros_namespace_keys =
    "namespace" ∷ "cpu-request-namespace-sum" ∷ "cpu-limit-namespace-sum"
    ∷ "cpu-usage-namespace-avg" ∷ "cpu-usage-namespace-max" ∷ "cpu-usage-namespace-min"
    ∷ "cpu-throttle-namespace-avg" ∷ "cpu-throttle-namespace-max" ∷ "cpu-throttle-namespace-min"
    ∷ "memory-request-namespace-sum" ∷ "memory-limit-namespace-sum" ∷ "memory-usage-namespace-avg"
    ∷ "memory-usage-namespace-max" ∷ "memory-usage-namespace-min" ∷ "memory-rss-usage-namespace-avg"
    ∷ "memory-rss-usage-namespace-max" ∷ "memory-rss-usage-namespace-min"
    ∷ "pods-running-namespace-max" ∷ "pods-running-namespace-avg" ∷ "pods-total-namespace-max"
    ∷ "pods-total-namespace-avg" ∷ []
