-- ===== src/Collector/Queries/RosNamespaceMemory.antt =====
-- The queries of rosNamespaceQueries on memory and pods of internal/collector/queries.go.
use koku_metrics_operator.Base.{some, List, [], ◌∷◌}
use koku_metrics_operator.Collector.Query.{Query}
use koku_metrics_operator.Collector.Queries.Expressions.{expr}

unfoldable pub ros_namespace_memory_queries : List Query
unfolding expr
ros_namespace_memory_queries =
    record {
      name = "memory-request-namespace-sum";
      query_string = expr "ros:memory_request_namespace_sum";
      metric_key = ("namespace", "namespace") ∷ [];
      metric_key_regex = [];
      query_value = some (record {
        val_name = "memory-request-namespace-sum";
        method = "";
        transformed_name = "";
      });
      row_key = "namespace" ∷ [];
    }
    ∷ record {
      name = "memory-limit-namespace-sum";
      query_string = expr "ros:memory_limit_namespace_sum";
      metric_key = ("namespace", "namespace") ∷ [];
      metric_key_regex = [];
      query_value =
          some (record {
            val_name = "memory-limit-namespace-sum";
            method = "";
            transformed_name = "";
          });
      row_key = "namespace" ∷ [];
    }
    ∷ record {
      name = "memory-usage-namespace-avg";
      query_string = expr "ros:memory_usage_namespace_avg";
      metric_key = ("namespace", "namespace") ∷ [];
      metric_key_regex = [];
      query_value =
          some (record {
            val_name = "memory-usage-namespace-avg";
            method = "";
            transformed_name = "";
          });
      row_key = "namespace" ∷ [];
    }
    ∷ record {
      name = "memory-usage-namespace-max";
      query_string = expr "ros:memory_usage_namespace_max";
      metric_key = ("namespace", "namespace") ∷ [];
      metric_key_regex = [];
      query_value =
          some (record {
            val_name = "memory-usage-namespace-max";
            method = "";
            transformed_name = "";
          });
      row_key = "namespace" ∷ [];
    }
    ∷ record {
      name = "memory-usage-namespace-min";
      query_string = expr "ros:memory_usage_namespace_min";
      metric_key = ("namespace", "namespace") ∷ [];
      metric_key_regex = [];
      query_value =
          some (record {
            val_name = "memory-usage-namespace-min";
            method = "";
            transformed_name = "";
          });
      row_key = "namespace" ∷ [];
    }
    ∷ record {
      name = "memory-rss-usage-namespace-avg";
      query_string = expr "ros:memory_rss_usage_namespace_avg";
      metric_key = ("namespace", "namespace") ∷ [];
      metric_key_regex = [];
      query_value = some (record {
        val_name = "memory-rss-usage-namespace-avg";
        method = "";
        transformed_name = "";
      });
      row_key = "namespace" ∷ [];
    }
    ∷ record {
      name = "memory-rss-usage-namespace-max";
      query_string = expr "ros:memory_rss_usage_namespace_max";
      metric_key = ("namespace", "namespace") ∷ [];
      metric_key_regex = [];
      query_value = some (record {
        val_name = "memory-rss-usage-namespace-max";
        method = "";
        transformed_name = "";
      });
      row_key = "namespace" ∷ [];
    }
    ∷ record {
      name = "memory-rss-usage-namespace-min";
      query_string = expr "ros:memory_rss_usage_namespace_min";
      metric_key = ("namespace", "namespace") ∷ [];
      metric_key_regex = [];
      query_value = some (record {
        val_name = "memory-rss-usage-namespace-min";
        method = "";
        transformed_name = "";
      });
      row_key = "namespace" ∷ [];
    }
    ∷ record {
      name = "pods-running-namespace-max";
      query_string = expr "ros:namespace_running_pods_max";
      metric_key = ("namespace", "namespace") ∷ [];
      metric_key_regex = [];
      query_value =
          some (record {
            val_name = "pods-running-namespace-max";
            method = "";
            transformed_name = "";
          });
      row_key = "namespace" ∷ [];
    }
    ∷ record {
      name = "pods-running-namespace-avg";
      query_string = expr "ros:namespace_running_pods_avg";
      metric_key = ("namespace", "namespace") ∷ [];
      metric_key_regex = [];
      query_value =
          some (record {
            val_name = "pods-running-namespace-avg";
            method = "";
            transformed_name = "";
          });
      row_key = "namespace" ∷ [];
    }
    ∷ record {
      name = "pods-total-namespace-max";
      query_string = expr "ros:namespace_total_pods_max";
      metric_key = ("namespace", "namespace") ∷ [];
      metric_key_regex = [];
      query_value =
          some
            (record { val_name = "pods-total-namespace-max"; method = ""; transformed_name = "" });
      row_key = "namespace" ∷ [];
    }
    ∷ record {
      name = "pods-total-namespace-avg";
      query_string = expr "ros:namespace_total_pods_avg";
      metric_key = ("namespace", "namespace") ∷ [];
      metric_key_regex = [];
      query_value =
          some
            (record { val_name = "pods-total-namespace-avg"; method = ""; transformed_name = "" });
      row_key = "namespace" ∷ [];
    }
    ∷ []
