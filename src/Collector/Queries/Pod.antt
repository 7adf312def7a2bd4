-- ===== src/Collector/Queries/Pod.antt =====
-- PodQueries of internal/collector/queries.go.
use koku_metrics_operator.Base.{none, some, List, [], ◌∷◌}
use koku_metrics_operator.Collector.Query.{Query}
use koku_metrics_operator.Collector.Queries.Expressions.{expr}

unfoldable pub pod_queries : List Query
unfolding expr
pod_queries =
    record {
      name = "pod-limit-cpu-cores";
      query_string = expr "cost:pod_limit_cpu_cores";
      metric_key = ("pod", "pod") ∷ ("namespace", "namespace") ∷ ("node", "node") ∷ [];
      metric_key_regex = [];
      query_value = some (record {
        val_name = "pod-limit-cpu-cores";
        method = "sum";
        transformed_name = "pod-limit-cpu-core-seconds";
      });
      row_key = "pod" ∷ "namespace" ∷ [];
    }
    ∷ record {
      name = "pod-limit-memory-bytes";
      query_string = expr "cost:pod_limit_memory_bytes";
      metric_key = ("pod", "pod") ∷ ("namespace", "namespace") ∷ ("node", "node") ∷ [];
      metric_key_regex = [];
      query_value = some (record {
        val_name = "pod-limit-memory-bytes";
        method = "sum";
        transformed_name = "pod-limit-memory-byte-seconds";
      });
      row_key = "pod" ∷ "namespace" ∷ [];
    }
    ∷ record {
      name = "pod-request-cpu-cores";
      query_string = expr "cost:pod_request_cpu_cores";
      metric_key = ("pod", "pod") ∷ ("namespace", "namespace") ∷ ("node", "node") ∷ [];
      metric_key_regex = [];
      query_value = some (record {
        val_name = "pod-request-cpu-cores";
        method = "sum";
        transformed_name = "pod-request-cpu-core-seconds";
      });
      row_key = "pod" ∷ "namespace" ∷ [];
    }
    ∷ record {
      name = "pod-request-memory-bytes";
      query_string = expr "cost:pod_request_memory_bytes";
      metric_key = ("pod", "pod") ∷ ("namespace", "namespace") ∷ ("node", "node") ∷ [];
      metric_key_regex = [];
      query_value = some (record {
        val_name = "pod-request-memory-bytes";
        method = "sum";
        transformed_name = "pod-request-memory-byte-seconds";
      });
      row_key = "pod" ∷ "namespace" ∷ [];
    }
    ∷ record {
      name = "pod-usage-cpu-cores";
      query_string = expr "cost:pod_usage_cpu_cores";
      metric_key = ("pod", "pod") ∷ ("namespace", "namespace") ∷ ("node", "node") ∷ [];
      metric_key_regex = [];
      query_value = some (record {
        val_name = "pod-usage-cpu-cores";
        method = "sum";
        transformed_name = "pod-usage-cpu-core-seconds";
      });
      row_key = "pod" ∷ "namespace" ∷ [];
    }
    ∷ record {
      name = "pod-usage-memory-bytes";
      query_string = expr "cost:pod_usage_memory_bytes";
      metric_key = ("pod", "pod") ∷ ("namespace", "namespace") ∷ ("node", "node") ∷ [];
      metric_key_regex = [];
      query_value = some (record {
        val_name = "pod-usage-memory-bytes";
        method = "sum";
        transformed_name = "pod-usage-memory-byte-seconds";
      });
      row_key = "pod" ∷ "namespace" ∷ [];
    }
    ∷ record {
      name = "pod-labels";
      query_string = expr "cost:pod_labels";
      metric_key = ("pod", "pod") ∷ ("namespace", "namespace") ∷ [];
      metric_key_regex = ("pod_labels", "label_*") ∷ [];
      query_value = none;
      row_key = "pod" ∷ "namespace" ∷ [];
    }
    ∷ []
