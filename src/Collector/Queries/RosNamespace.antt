-- ===== src/Collector/Queries/RosNamespace.antt =====
-- RosNamespaceFilter, and the queries of rosNamespaceQueries on CPU of internal/collector/queries.go.
use koku_metrics_operator.Base.{none, some, List, [], ◌∷◌}
use koku_metrics_operator.Collector.Query.{Query}
use koku_metrics_operator.Collector.Queries.Expressions.{expr}

unfoldable pub ros_namespace_filter : Query
unfolding expr
ros_namespace_filter = record {
  name = "ros-namespace-filter";
  query_string = expr "ros:namespace_filter";
  metric_key = ("namespace", "namespace") ∷ [];
  metric_key_regex = [];
  query_value = none;
  row_key = [];
}

unfoldable pub ros_namespace_cpu_queries : List Query
unfolding expr
ros_namespace_cpu_queries =
    record {
      name = "cpu-request-namespace-sum";
      query_string = expr "ros:cpu_request_namespace_sum";
      metric_key = ("namespace", "namespace") ∷ [];
      metric_key_regex = [];
      query_value =
          some
            (record { val_name = "cpu-request-namespace-sum"; method = ""; transformed_name = "" });
      row_key = "namespace" ∷ [];
    }
    ∷ record {
      name = "cpu-limit-namespace-sum";
      query_string = expr "ros:cpu_limit_namespace_sum";
      metric_key = ("namespace", "namespace") ∷ [];
      metric_key_regex = [];
      query_value =
          some
            (record { val_name = "cpu-limit-namespace-sum"; method = ""; transformed_name = "" });
      row_key = "namespace" ∷ [];
    }
    ∷ record {
      name = "cpu-usage-namespace-avg";
      query_string = expr "ros:cpu_usage_namespace_avg";
      metric_key = ("namespace", "namespace") ∷ [];
      metric_key_regex = [];
      query_value =
          some
            (record { val_name = "cpu-usage-namespace-avg"; method = ""; transformed_name = "" });
      row_key = "namespace" ∷ [];
    }
    ∷ record {
      name = "cpu-usage-namespace-max";
      query_string = expr "ros:cpu_usage_namespace_max";
      metric_key = ("namespace", "namespace") ∷ [];
      metric_key_regex = [];
      query_value =
          some
            (record { val_name = "cpu-usage-namespace-max"; method = ""; transformed_name = "" });
      row_key = "namespace" ∷ [];
    }
    ∷ record {
      name = "cpu-usage-namespace-min";
      query_string = expr "ros:cpu_usage_namespace_min";
      metric_key = ("namespace", "namespace") ∷ [];
      metric_key_regex = [];
      query_value =
          some
            (record { val_name = "cpu-usage-namespace-min"; method = ""; transformed_name = "" });
      row_key = "namespace" ∷ [];
    }
    ∷ record {
      name = "cpu-throttle-namespace-avg";
      query_string = expr "ros:cpu_throttle_namespace_avg";
      metric_key = ("namespace", "namespace") ∷ [];
      metric_key_regex = [];
      query_value =
          some (record {
            val_name = "cpu-throttle-namespace-avg";
            method = "";
            transformed_name = "";
          });
      row_key = "namespace" ∷ [];
    }
    ∷ record {
      name = "cpu-throttle-namespace-max";
      query_string = expr "ros:cpu_throttle_namespace_max";
      metric_key = ("namespace", "namespace") ∷ [];
      metric_key_regex = [];
      query_value =
          some (record {
            val_name = "cpu-throttle-namespace-max";
            method = "";
            transformed_name = "";
          });
      row_key = "namespace" ∷ [];
    }
    ∷ record {
      name = "cpu-throttle-namespace-min";
      query_string = expr "ros:cpu_throttle_namespace_min";
      metric_key = ("namespace", "namespace") ∷ [];
      metric_key_regex = [];
      query_value =
          some (record {
            val_name = "cpu-throttle-namespace-min";
            method = "";
            transformed_name = "";
          });
      row_key = "namespace" ∷ [];
    }
    ∷ []
