-- ===== src/Collector/Queries/RosCpu.antt =====
-- The queries of rosContainerQueries on the usage of CPU of internal/collector/queries.go.
use koku_metrics_operator.Base.{some, List, [], ◌∷◌}
use koku_metrics_operator.Collector.Query.{Query}
use koku_metrics_operator.Collector.Queries.Expressions.{expr}

unfoldable pub ros_cpu_usage_queries : List Query
unfolding expr
ros_cpu_usage_queries =
    record {
      name = "cpu-usage-container-avg";
      query_string = expr "ros:cpu_usage_container_avg";
      metric_key =
          ("container_name", "container")
          ∷ ("pod", "pod")
          ∷ ("namespace", "namespace")
          ∷ ("node", "node")
          ∷ [];
      metric_key_regex = [];
      query_value =
          some (record {
            val_name = "cpu-usage-container-avg";
            method = "sum";
            transformed_name = "";
          });
      row_key = "container" ∷ "pod" ∷ "namespace" ∷ [];
    }
    ∷ record {
      name = "cpu-usage-container-min";
      query_string = expr "ros:cpu_usage_container_min";
      metric_key =
          ("container_name", "container")
          ∷ ("pod", "pod")
          ∷ ("namespace", "namespace")
          ∷ ("node", "node")
          ∷ [];
      metric_key_regex = [];
      query_value =
          some
            (record { val_name = "cpu-usage-container-min"; method = ""; transformed_name = "" });
      row_key = "container" ∷ "pod" ∷ "namespace" ∷ [];
    }
    ∷ record {
      name = "cpu-usage-container-max";
      query_string = expr "ros:cpu_usage_container_max";
      metric_key =
          ("container_name", "container")
          ∷ ("pod", "pod")
          ∷ ("namespace", "namespace")
          ∷ ("node", "node")
          ∷ [];
      metric_key_regex = [];
      query_value =
          some
            (record { val_name = "cpu-usage-container-max"; method = ""; transformed_name = "" });
      row_key = "container" ∷ "pod" ∷ "namespace" ∷ [];
    }
    ∷ record {
      name = "cpu-usage-container-sum";
      query_string = expr "ros:cpu_usage_container_sum";
      metric_key =
          ("container_name", "container")
          ∷ ("pod", "pod")
          ∷ ("namespace", "namespace")
          ∷ ("node", "node")
          ∷ [];
      metric_key_regex = [];
      query_value =
          some
            (record { val_name = "cpu-usage-container-sum"; method = ""; transformed_name = "" });
      row_key = "container" ∷ "pod" ∷ "namespace" ∷ [];
    }
    ∷ record {
      name = "cpu-throttle-container-avg";
      query_string = expr "ros:cpu_throttle_container_avg";
      metric_key =
          ("container_name", "container")
          ∷ ("pod", "pod")
          ∷ ("namespace", "namespace")
          ∷ ("node", "node")
          ∷ [];
      metric_key_regex = [];
      query_value =
          some (record {
            val_name = "cpu-throttle-container-avg";
            method = "";
            transformed_name = "";
          });
      row_key = "container" ∷ "pod" ∷ "namespace" ∷ [];
    }
    ∷ record {
      name = "cpu-throttle-container-max";
      query_string = expr "ros:cpu_throttle_container_max";
      metric_key =
          ("container_name", "container")
          ∷ ("pod", "pod")
          ∷ ("namespace", "namespace")
          ∷ ("node", "node")
          ∷ [];
      metric_key_regex = [];
      query_value =
          some (record {
            val_name = "cpu-throttle-container-max";
            method = "";
            transformed_name = "";
          });
      row_key = "container" ∷ "pod" ∷ "namespace" ∷ [];
    }
    ∷ record {
      name = "cpu-throttle-container-min";
      query_string = expr "ros:cpu_throttle_container_min";
      metric_key =
          ("container_name", "container")
          ∷ ("pod", "pod")
          ∷ ("namespace", "namespace")
          ∷ ("node", "node")
          ∷ [];
      metric_key_regex = [];
      query_value =
          some (record {
            val_name = "cpu-throttle-container-min";
            method = "";
            transformed_name = "";
          });
      row_key = "container" ∷ "pod" ∷ "namespace" ∷ [];
    }
    ∷ record {
      name = "cpu-throttle-container-sum";
      query_string = expr "ros:cpu_throttle_container_sum";
      metric_key =
          ("container_name", "container")
          ∷ ("pod", "pod")
          ∷ ("namespace", "namespace")
          ∷ ("node", "node")
          ∷ [];
      metric_key_regex = [];
      query_value =
          some (record {
            val_name = "cpu-throttle-container-sum";
            method = "";
            transformed_name = "";
          });
      row_key = "container" ∷ "pod" ∷ "namespace" ∷ [];
    }
    ∷ []
