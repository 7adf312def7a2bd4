-- ===== src/Collector/Queries/Vm.antt =====
-- VmQueries of internal/collector/queries.go.
use koku_metrics_operator.Base.{none, some, List, [], ◌∷◌, ◌++◌}
use koku_metrics_operator.Collector.Query.{Query}
use koku_metrics_operator.Collector.Queries.Expressions.{expr}

unfoldable pub vm_cpu_queries : List Query
unfolding expr
vm_cpu_queries =
    record {
      name = "vm_cpu_limit_cores";
      query_string = expr "cost:vm_cpu_limit_cores";
      metric_key = ("name", "name") ∷ ("namespace", "namespace") ∷ [];
      metric_key_regex = [];
      query_value = some (record {
        val_name = "vm_cpu_limit_cores";
        method = "max";
        transformed_name = "vm_cpu_limit_core_seconds";
      });
      row_key = "name" ∷ "namespace" ∷ [];
    }
    ∷ record {
      name = "vm_cpu_request_cores";
      query_string = expr "cost:vm_cpu_request_cores";
      metric_key = ("name", "name") ∷ ("namespace", "namespace") ∷ [];
      metric_key_regex = [];
      query_value = some (record {
        val_name = "vm_cpu_request_cores";
        method = "max";
        transformed_name = "vm_cpu_request_core_seconds";
      });
      row_key = "name" ∷ "namespace" ∷ [];
    }
    ∷ record {
      name = "vm_cpu_request_sockets";
      query_string = expr "cost:vm_cpu_request_sockets";
      metric_key = ("name", "name") ∷ ("namespace", "namespace") ∷ [];
      metric_key_regex = [];
      query_value = some (record {
        val_name = "vm_cpu_request_sockets";
        method = "max";
        transformed_name = "vm_cpu_request_socket_seconds";
      });
      row_key = "name" ∷ "namespace" ∷ [];
    }
    ∷ record {
      name = "vm_cpu_request_threads";
      query_string = expr "cost:vm_cpu_request_threads";
      metric_key = ("name", "name") ∷ ("namespace", "namespace") ∷ [];
      metric_key_regex = [];
      query_value = some (record {
        val_name = "vm_cpu_request_threads";
        method = "max";
        transformed_name = "vm_cpu_request_thread_seconds";
      });
      row_key = "name" ∷ "namespace" ∷ [];
    }
    ∷ record {
      name = "vm_cpu_usage";
      query_string = expr "cost:vm_cpu_usage";
      metric_key = ("name", "name") ∷ ("namespace", "namespace") ∷ [];
      metric_key_regex = [];
      query_value = some (record {
        val_name = "vm_cpu_usage";
        method = "sum";
        transformed_name = "vm_cpu_usage_total_seconds";
      });
      row_key = "name" ∷ "namespace" ∷ [];
    }
    ∷ []

unfoldable pub vm_other_queries : List Query
unfolding expr
vm_other_queries =
    record {
      name = "vm_memory_limit_bytes";
      query_string = expr "cost:vm_memory_limit_bytes";
      metric_key = ("name", "name") ∷ ("namespace", "namespace") ∷ [];
      metric_key_regex = [];
      query_value = some (record {
        val_name = "vm_memory_limit_bytes";
        method = "max";
        transformed_name = "vm_memory_limit_byte_seconds";
      });
      row_key = "name" ∷ "namespace" ∷ [];
    }
    ∷ record {
      name = "vm_memory_request_bytes";
      query_string = expr "cost:vm_memory_request_bytes";
      metric_key = ("name", "name") ∷ ("namespace", "namespace") ∷ ("resource", "resource") ∷ [];
      metric_key_regex = [];
      query_value = some (record {
        val_name = "vm_memory_request_bytes";
        method = "max";
        transformed_name = "vm_memory_request_byte_seconds";
      });
      row_key = "name" ∷ "namespace" ∷ [];
    }
    ∷ record {
      name = "vm_memory_usage";
      query_string = expr "cost:vm_memory_usage_bytes";
      metric_key = ("name", "name") ∷ ("namespace", "namespace") ∷ [];
      metric_key_regex = [];
      query_value = some (record {
        val_name = "vm_memory_usage_bytes";
        method = "sum";
        transformed_name = "vm_memory_usage_byte_seconds";
      });
      row_key = "name" ∷ "namespace" ∷ [];
    }
    ∷ record {
      name = "vm_info";
      query_string = expr "cost:vm_info";
      metric_key =
          ("node", "node")
          ∷ ("provider_id", "provider_id")
          ∷ ("name", "name")
          ∷ ("namespace", "namespace")
          ∷ ("instance_type", "instance_type")
          ∷ ("os", "os")
          ∷ ("guest_os_arch", "guest_os_arch")
          ∷ ("guest_os_name", "guest_os_name")
          ∷ ("guest_os_version_id", "guest_os_version_id")
          ∷ [];
      metric_key_regex = [];
      query_value =
          some (record {
            val_name = "";
            method = "sum";
            transformed_name = "vm_uptime_total_seconds";
          });
      row_key = "name" ∷ "namespace" ∷ [];
    }
    ∷ record {
      name = "vm_disk_allocated_size";
      query_string = expr "cost:vm_disk_allocated_size_bytes";
      metric_key =
          ("name", "name")
          ∷ ("namespace", "namespace")
          ∷ ("device", "device")
          ∷ ("volume_mode", "volume_mode")
          ∷ ("persistentvolumeclaim_name", "persistentvolumeclaim")
          ∷ [];
      metric_key_regex = [];
      query_value = some (record {
        val_name = "vm_disk_allocated_size_bytes";
        method = "max";
        transformed_name = "vm_disk_allocated_size_byte_seconds";
      });
      row_key = "name" ∷ "namespace" ∷ [];
    }
    ∷ record {
      name = "vm_labels";
      query_string = expr "cost:vm_labels";
      metric_key = ("name", "name") ∷ ("namespace", "namespace") ∷ [];
      metric_key_regex = ("vm_labels", "label_*") ∷ [];
      query_value = none;
      row_key = "name" ∷ "namespace" ∷ [];
    }
    ∷ []

unfoldable pub vm_queries : List Query
unfolding vm_cpu_queries vm_other_queries
vm_queries = vm_cpu_queries ++ vm_other_queries
