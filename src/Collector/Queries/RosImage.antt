-- ===== src/Collector/Queries/RosImage.antt =====
-- The queries of rosContainerQueries on images, and on requests and limits of CPU of internal/collector/queries.go.
use koku_metrics_operator.Base.{none, some, List, [], ◌∷◌}
use koku_metrics_operator.Collector.Query.{Query}
use koku_metrics_operator.Collector.Queries.Expressions.{expr}

unfoldable pub ros_image_queries : List Query
unfolding expr
ros_image_queries =
    record {
      name = "container-image-owner";
      query_string = expr "ros:image_owners";
      metric_key =
          ("image_name", "image")
          ∷ ("owner_name", "owner_name")
          ∷ ("owner_kind", "owner_kind")
          ∷ ("container_name", "container")
          ∷ ("pod", "pod")
          ∷ ("namespace", "namespace")
          ∷ [];
      metric_key_regex = [];
      query_value = none;
      row_key = "container" ∷ "pod" ∷ "namespace" ∷ [];
    }
    ∷ record {
      name = "container-image-workload";
      query_string = expr "ros:image_workloads";
      metric_key =
          ("image_name", "image")
          ∷ ("workload", "workload")
          ∷ ("workload_type", "workload_type")
          ∷ ("container_name", "container")
          ∷ ("pod", "pod")
          ∷ ("namespace", "namespace")
          ∷ [];
      metric_key_regex = [];
      query_value = none;
      row_key = "container" ∷ "pod" ∷ "namespace" ∷ [];
    }
    ∷ []

unfoldable pub ros_cpu_request_queries : List Query
unfolding expr
ros_cpu_request_queries =
    record {
      name = "cpu-request-container-avg";
      query_string = expr "ros:cpu_request_container_avg";
      metric_key =
          ("container_name", "container")
          ∷ ("pod", "pod")
          ∷ ("namespace", "namespace")
          ∷ ("node", "node")
          ∷ [];
      metric_key_regex = [];
      query_value =
          some
            (record { val_name = "cpu-request-container-avg"; method = ""; transformed_name = "" });
      row_key = "container" ∷ "pod" ∷ "namespace" ∷ [];
    }
    ∷ record {
      name = "cpu-request-container-sum";
      query_string = expr "ros:cpu_request_container_sum";
      metric_key =
          ("container_name", "container")
          ∷ ("pod", "pod")
          ∷ ("namespace", "namespace")
          ∷ ("node", "node")
          ∷ [];
      metric_key_regex = [];
      query_value =
          some
            (record { val_name = "cpu-request-container-sum"; method = ""; transformed_name = "" });
      row_key = "container" ∷ "pod" ∷ "namespace" ∷ [];
    }
    ∷ record {
      name = "cpu-limit-container-avg";
      query_string = expr "ros:cpu_limit_container_avg";
      metric_key =
          ("container_name", "container")
          ∷ ("pod", "pod")
          ∷ ("namespace", "namespace")
          ∷ ("node", "node")
          ∷ [];
      metric_key_regex = [];
      query_value =
          some
            (record { val_name = "cpu-limit-container-avg"; method = ""; transformed_name = "" });
      row_key = "container" ∷ "pod" ∷ "namespace" ∷ [];
    }
    ∷ record {
      name = "cpu-limit-container-sum";
      query_string = expr "ros:cpu_limit_container_sum";
      metric_key =
          ("container_name", "container")
          ∷ ("pod", "pod")
          ∷ ("namespace", "namespace")
          ∷ ("node", "node")
          ∷ [];
      metric_key_regex = [];
      query_value =
          some
            (record { val_name = "cpu-limit-container-sum"; method = ""; transformed_name = "" });
      row_key = "container" ∷ "pod" ∷ "namespace" ∷ [];
    }
    ∷ []
