-- ===== src/Collector/Queries/Node.antt =====
-- NodeQueries and namespaceQueries of internal/collector/queries.go.
use koku_metrics_operator.Base.{none, some, List, [], ◌∷◌}
use koku_metrics_operator.Collector.Query.{Query}
use koku_metrics_operator.Collector.Queries.Expressions.{expr}

unfoldable pub node_queries : List Query
unfolding expr
node_queries =
    record {
      name = "node-allocatable-cpu-cores";
      query_string = expr "cost:node_allocatable_cpu_cores";
      metric_key = ("node", "node") ∷ ("provider_id", "provider_id") ∷ [];
      metric_key_regex = [];
      query_value = some (record {
        val_name = "node-allocatable-cpu-cores";
        method = "max";
        transformed_name = "node-allocatable-cpu-core-seconds";
      });
      row_key = "node" ∷ [];
    }
    ∷ record {
      name = "node-allocatable-memory-bytes";
      query_string = expr "cost:node_allocatable_memory_bytes";
      metric_key = ("node", "node") ∷ ("provider_id", "provider_id") ∷ [];
      metric_key_regex = [];
      query_value = some (record {
        val_name = "node-allocatable-memory-bytes";
        method = "max";
        transformed_name = "node-allocatable-memory-byte-seconds";
      });
      row_key = "node" ∷ [];
    }
    ∷ record {
      name = "node-capacity-cpu-cores";
      query_string = expr "cost:node_capacity_cpu_cores";
      metric_key = ("node", "node") ∷ ("provider_id", "provider_id") ∷ [];
      metric_key_regex = [];
      query_value = some (record {
        val_name = "node-capacity-cpu-cores";
        method = "max";
        transformed_name = "node-capacity-cpu-core-seconds";
      });
      row_key = "node" ∷ [];
    }
    ∷ record {
      name = "node-capacity-memory-bytes";
      query_string = expr "cost:node_capacity_memory_bytes";
      metric_key = ("node", "node") ∷ ("provider_id", "provider_id") ∷ [];
      metric_key_regex = [];
      query_value = some (record {
        val_name = "node-capacity-memory-bytes";
        method = "max";
        transformed_name = "node-capacity-memory-byte-seconds";
      });
      row_key = "node" ∷ [];
    }
    ∷ record {
      name = "node-role";
      query_string = "kube_node_role";
      metric_key = ("node", "node") ∷ ("node-role", "role") ∷ [];
      metric_key_regex = [];
      query_value = none;
      row_key = "node" ∷ [];
    }
    ∷ record {
      name = "node-labels";
      query_string = "kube_node_labels";
      metric_key = [];
      metric_key_regex = ("node_labels", "label_*") ∷ [];
      query_value = none;
      row_key = "node" ∷ [];
    }
    ∷ []

unfoldable pub namespace_queries : List Query
namespace_queries =
    record {
      name = "namespace-labels";
      query_string = "kube_namespace_labels";
      metric_key = ("namespace", "namespace") ∷ [];
      metric_key_regex = ("namespace_labels", "label_*") ∷ [];
      query_value = none;
      row_key = "namespace" ∷ [];
    }
    ∷ []
