-- ===== src/Collector/Queries/RosRss.antt =====
-- The queries of rosContainerQueries on resident memory of internal/collector/queries.go.
use koku_metrics_operator.Base.{some, List, [], ◌∷◌}
use koku_metrics_operator.Collector.Query.{Query}
use koku_metrics_operator.Collector.Queries.Expressions.{expr}

unfoldable pub ros_rss_queries : List Query
unfolding expr
ros_rss_queries =
    record {
      name = "memory-rss-usage-container-avg";
      query_string = expr "ros:memory_rss_usage_container_avg";
      metric_key =
          ("container_name", "container")
          ∷ ("pod", "pod")
          ∷ ("namespace", "namespace")
          ∷ ("node", "node")
          ∷ [];
      metric_key_regex = [];
      query_value = some (record {
        val_name = "memory-rss-usage-container-avg";
        method = "";
        transformed_name = "";
      });
      row_key = "container" ∷ "pod" ∷ "namespace" ∷ [];
    }
    ∷ record {
      name = "memory-rss-usage-container-min";
      query_string = expr "ros:memory_rss_usage_container_min";
      metric_key =
          ("container_name", "container")
          ∷ ("pod", "pod")
          ∷ ("namespace", "namespace")
          ∷ ("node", "node")
          ∷ [];
      metric_key_regex = [];
      query_value = some (record {
        val_name = "memory-rss-usage-container-min";
        method = "";
        transformed_name = "";
      });
      row_key = "container" ∷ "pod" ∷ "namespace" ∷ [];
    }
    ∷ record {
      name = "memory-rss-usage-container-max";
      query_string = expr "ros:memory_rss_usage_container_max";
      metric_key =
          ("container_name", "container")
          ∷ ("pod", "pod")
          ∷ ("namespace", "namespace")
          ∷ ("node", "node")
          ∷ [];
      metric_key_regex = [];
      query_value = some (record {
        val_name = "memory-rss-usage-container-max";
        method = "";
        transformed_name = "";
      });
      row_key = "container" ∷ "pod" ∷ "namespace" ∷ [];
    }
    ∷ record {
      name = "memory-rss-usage-container-sum";
      query_string = expr "ros:memory_rss_usage_container_sum";
      metric_key =
          ("container_name", "container")
          ∷ ("pod", "pod")
          ∷ ("namespace", "namespace")
          ∷ ("node", "node")
          ∷ [];
      metric_key_regex = [];
      query_value = some (record {
        val_name = "memory-rss-usage-container-sum";
        method = "";
        transformed_name = "";
      });
      row_key = "container" ∷ "pod" ∷ "namespace" ∷ [];
    }
    ∷ []
