-- ===== src/Collector/Queries/RosMemory.antt =====
-- The queries of rosContainerQueries on memory of internal/collector/queries.go.
use koku_metrics_operator.Base.{some, List, [], ◌∷◌}
use koku_metrics_operator.Collector.Query.{Query}
use koku_metrics_operator.Collector.Queries.Expressions.{expr}

unfoldable pub ros_memory_queries : List Query
unfolding expr
ros_memory_queries =
    record {
      name = "memory-request-container-avg";
      query_string = expr "ros:memory_request_container_avg";
      metric_key =
          ("container_name", "container")
          ∷ ("pod", "pod")
          ∷ ("namespace", "namespace")
          ∷ ("node", "node")
          ∷ [];
      metric_key_regex = [];
      query_value = some (record {
        val_name = "memory-request-container-avg";
        method = "";
        transformed_name = "";
      });
      row_key = "container" ∷ "pod" ∷ "namespace" ∷ [];
    }
    ∷ record {
      name = "memory-request-container-sum";
      query_string = expr "ros:memory_request_container_sum";
      metric_key =
          ("container_name", "container")
          ∷ ("pod", "pod")
          ∷ ("namespace", "namespace")
          ∷ ("node", "node")
          ∷ [];
      metric_key_regex = [];
      query_value = some (record {
        val_name = "memory-request-container-sum";
        method = "";
        transformed_name = "";
      });
      row_key = "container" ∷ "pod" ∷ "namespace" ∷ [];
    }
    ∷ record {
      name = "memory-limit-container-avg";
      query_string = expr "ros:memory_limit_container_avg";
      metric_key =
          ("container_name", "container")
          ∷ ("pod", "pod")
          ∷ ("namespace", "namespace")
          ∷ ("node", "node")
          ∷ [];
      metric_key_regex = [];
      query_value =
          some (record {
            val_name = "memory-limit-container-avg";
            method = "";
            transformed_name = "";
          });
      row_key = "container" ∷ "pod" ∷ "namespace" ∷ [];
    }
    ∷ record {
      name = "memory-limit-container-sum";
      query_string = expr "ros:memory_limit_container_sum";
      metric_key =
          ("container_name", "container")
          ∷ ("pod", "pod")
          ∷ ("namespace", "namespace")
          ∷ ("node", "node")
          ∷ [];
      metric_key_regex = [];
      query_value =
          some (record {
            val_name = "memory-limit-container-sum";
            method = "";
            transformed_name = "";
          });
      row_key = "container" ∷ "pod" ∷ "namespace" ∷ [];
    }
    ∷ record {
      name = "memory-usage-container-avg";
      query_string = expr "ros:memory_usage_container_avg";
      metric_key =
          ("container_name", "container")
          ∷ ("pod", "pod")
          ∷ ("namespace", "namespace")
          ∷ ("node", "node")
          ∷ [];
      metric_key_regex = [];
      query_value =
          some (record {
            val_name = "memory-usage-container-avg";
            method = "";
            transformed_name = "";
          });
      row_key = "container" ∷ "pod" ∷ "namespace" ∷ [];
    }
    ∷ record {
      name = "memory-usage-container-min";
      query_string = expr "ros:memory_usage_container_min";
      metric_key =
          ("container_name", "container")
          ∷ ("pod", "pod")
          ∷ ("namespace", "namespace")
          ∷ ("node", "node")
          ∷ [];
      metric_key_regex = [];
      query_value =
          some (record {
            val_name = "memory-usage-container-min";
            method = "";
            transformed_name = "";
          });
      row_key = "container" ∷ "pod" ∷ "namespace" ∷ [];
    }
    ∷ record {
      name = "memory-usage-container-max";
      query_string = expr "ros:memory_usage_container_max";
      metric_key =
          ("container_name", "container")
          ∷ ("pod", "pod")
          ∷ ("namespace", "namespace")
          ∷ ("node", "node")
          ∷ [];
      metric_key_regex = [];
      query_value =
          some (record {
            val_name = "memory-usage-container-max";
            method = "";
            transformed_name = "";
          });
      row_key = "container" ∷ "pod" ∷ "namespace" ∷ [];
    }
    ∷ record {
      name = "memory-usage-container-sum";
      query_string = expr "ros:memory_usage_container_sum";
      metric_key =
          ("container_name", "container")
          ∷ ("pod", "pod")
          ∷ ("namespace", "namespace")
          ∷ ("node", "node")
          ∷ [];
      metric_key_regex = [];
      query_value =
          some (record {
            val_name = "memory-usage-container-sum";
            method = "";
            transformed_name = "";
          });
      row_key = "container" ∷ "pod" ∷ "namespace" ∷ [];
    }
    ∷ []
