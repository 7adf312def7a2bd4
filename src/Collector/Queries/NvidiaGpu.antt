-- ===== src/Collector/Queries/NvidiaGpu.antt =====
-- The queries of NVIDIA GPUs of internal/collector/queries.go.
use koku_metrics_operator.Base.{none, some, List, [], ◌∷◌}
use koku_metrics_operator.Collector.Query.{Query}
use koku_metrics_operator.Collector.Queries.Expressions.{expr}

unfoldable pub nvidia_gpu_memory_capacity_non_mig_queries : List Query
unfolding expr
nvidia_gpu_memory_capacity_non_mig_queries =
    record {
      name = "nvidia-gpu-memory-capacity-mib-non-mig";
      query_string = expr "cost:nvidia_gpu_capacity_memory_mib_non_mig";
      metric_key =
          ("pod", "pod")
          ∷ ("namespace", "namespace")
          ∷ ("node", "node")
          ∷ ("gpu_memory_capacity_mib", "label_nvidia_com_gpu_memory")
          ∷ [];
      metric_key_regex = [];
      query_value = none;
      row_key = "pod" ∷ "namespace" ∷ "node" ∷ [];
    }
    ∷ []

unfoldable pub nvidia_gpu_memory_capacity_mig_queries : List Query
unfolding expr
nvidia_gpu_memory_capacity_mig_queries =
    record {
      name = "nvidia-gpu-memory-capacity-mib-mig";
      query_string = expr "cost:nvidia_gpu_capacity_memory_mib_mig";
      metric_key =
          ("pod", "exported_pod")
          ∷ ("namespace", "exported_namespace")
          ∷ ("node", "Hostname")
          ∷ ("gpu_memory_capacity_mib", "label_nvidia_com_gpu_memory")
          ∷ ("mig_strategy", "label_nvidia_com_mig_strategy")
          ∷ [];
      metric_key_regex = [];
      query_value = none;
      row_key = "exported_pod" ∷ "exported_namespace" ∷ "Hostname" ∷ "UUID" ∷ "GPU_I_ID" ∷ [];
    }
    ∷ []

unfoldable pub nvidia_gpu_utilization_queries : List Query
unfolding expr
nvidia_gpu_utilization_queries =
    record {
      name = "nvidia-gpu-utilization";
      query_string = expr "cost:nvidia_gpu_utilization";
      metric_key =
          ("node", "Hostname")
          ∷ ("namespace", "exported_namespace")
          ∷ ("pod", "exported_pod")
          ∷ ("gpu_uuid", "UUID")
          ∷ ("model_name", "modelName")
          ∷ ("mig_instance_id", "GPU_I_ID")
          ∷ ("mig_profile", "GPU_I_PROFILE")
          ∷ ("vendor_name", "device")
          ∷ [];
      metric_key_regex = [];
      query_value = some (record {
        val_name = "";
        method = "sum";
        transformed_name = "nvidia-gpu-pod-uptime-seconds";
      });
      row_key = "exported_pod" ∷ "exported_namespace" ∷ "Hostname" ∷ "UUID" ∷ "GPU_I_ID" ∷ [];
    }
    ∷ []

unfoldable pub nvidia_gpu_max_slices_queries : List Query
unfolding expr
nvidia_gpu_max_slices_queries =
    record {
      name = "nvidia-gpu-max-slices";
      query_string = expr "cost:nvidia_gpu_max_slices";
      metric_key =
          ("node", "Hostname") ∷ ("namespace", "exported_namespace") ∷ ("pod", "exported_pod") ∷ [];
      metric_key_regex = [];
      query_value =
          some
            (record { val_name = "nvidia-gpu-max-slices"; method = "max"; transformed_name = "" });
      row_key = "exported_pod" ∷ "exported_namespace" ∷ "Hostname" ∷ "UUID" ∷ "GPU_I_ID" ∷ [];
    }
    ∷ []
