-- ===== src/Collector/Queries/RosAccelerator.antt =====
-- The queries of rosContainerQueries on accelerators of internal/collector/queries.go.
use koku_metrics_operator.Base.{some, List, [], ◌∷◌}
use koku_metrics_operator.Collector.Query.{Query}
use koku_metrics_operator.Collector.Queries.Expressions.{expr}

unfoldable pub ros_accelerator_queries : List Query
unfolding expr
ros_accelerator_queries =
    record {
      name = "accelerator-core-usage-percentage-min";
      query_string = expr "ros:accelerator_core_usage_percentage_min";
      metric_key =
          ("accelerator_model_name", "modelName")
          ∷ ("container", "exported_container")
          ∷ ("namespace", "exported_namespace")
          ∷ ("pod", "exported_pod")
          ∷ ("node", "Hostname")
          ∷ [];
      metric_key_regex = [];
      query_value = some (record {
        val_name = "accelerator-core-usage-percentage-min";
        method = "";
        transformed_name = "";
      });
      row_key = "exported_container" ∷ "exported_pod" ∷ "exported_namespace" ∷ [];
    }
    ∷ record {
      name = "accelerator-core-usage-percentage-max";
      query_string = expr "ros:accelerator_core_usage_percentage_max";
      metric_key =
          ("accelerator_model_name", "modelName")
          ∷ ("container", "exported_container")
          ∷ ("namespace", "exported_namespace")
          ∷ ("pod", "exported_pod")
          ∷ ("node", "Hostname")
          ∷ [];
      metric_key_regex = [];
      query_value = some (record {
        val_name = "accelerator-core-usage-percentage-max";
        method = "";
        transformed_name = "";
      });
      row_key = "exported_container" ∷ "exported_pod" ∷ "exported_namespace" ∷ [];
    }
    ∷ record {
      name = "accelerator-core-usage-percentage-avg";
      query_string = expr "ros:accelerator_core_usage_percentage_avg";
      metric_key =
          ("accelerator_model_name", "modelName")
          ∷ ("container", "exported_container")
          ∷ ("namespace", "exported_namespace")
          ∷ ("pod", "exported_pod")
          ∷ ("node", "Hostname")
          ∷ [];
      metric_key_regex = [];
      query_value = some (record {
        val_name = "accelerator-core-usage-percentage-avg";
        method = "";
        transformed_name = "";
      });
      row_key = "exported_container" ∷ "exported_pod" ∷ "exported_namespace" ∷ [];
    }
    ∷ record {
      name = "accelerator-memory-copy-percentage-min";
      query_string = expr "ros:accelerator_memory_copy_percentage_min";
      metric_key =
          ("accelerator_model_name", "modelName")
          ∷ ("container", "exported_container")
          ∷ ("namespace", "exported_namespace")
          ∷ ("pod", "exported_pod")
          ∷ ("node", "Hostname")
          ∷ [];
      metric_key_regex = [];
      query_value = some (record {
        val_name = "accelerator-memory-copy-percentage-min";
        method = "";
        transformed_name = "";
      });
      row_key = "exported_container" ∷ "exported_pod" ∷ "exported_namespace" ∷ [];
    }
    ∷ record {
      name = "accelerator-memory-copy-percentage-max";
      query_string = expr "ros:accelerator_memory_copy_percentage_max";
      metric_key =
          ("accelerator_model_name", "modelName")
          ∷ ("container", "exported_container")
          ∷ ("namespace", "exported_namespace")
          ∷ ("pod", "exported_pod")
          ∷ ("node", "Hostname")
          ∷ [];
      metric_key_regex = [];
      query_value = some (record {
        val_name = "accelerator-memory-copy-percentage-max";
        method = "";
        transformed_name = "";
      });
      row_key = "exported_container" ∷ "exported_pod" ∷ "exported_namespace" ∷ [];
    }
    ∷ record {
      name = "accelerator-memory-copy-percentage-avg";
      query_string = expr "ros:accelerator_memory_copy_percentage_avg";
      metric_key =
          ("accelerator_model_name", "modelName")
          ∷ ("container", "exported_container")
          ∷ ("namespace", "exported_namespace")
          ∷ ("pod", "exported_pod")
          ∷ ("node", "Hostname")
          ∷ [];
      metric_key_regex = [];
      query_value = some (record {
        val_name = "accelerator-memory-copy-percentage-avg";
        method = "";
        transformed_name = "";
      });
      row_key = "exported_container" ∷ "exported_pod" ∷ "exported_namespace" ∷ [];
    }
    ∷ record {
      name = "accelerator-frame-buffer-usage-min";
      query_string = expr "ros:accelerator_frame_buffer_usage_min";
      metric_key =
          ("accelerator_model_name", "modelName")
          ∷ ("container", "exported_container")
          ∷ ("namespace", "exported_namespace")
          ∷ ("pod", "exported_pod")
          ∷ ("node", "Hostname")
          ∷ ("accelerator_profile_name", "GPU_I_PROFILE")
          ∷ [];
      metric_key_regex = [];
      query_value = some (record {
        val_name = "accelerator-frame-buffer-usage-min";
        method = "";
        transformed_name = "";
      });
      row_key = "exported_container" ∷ "exported_pod" ∷ "exported_namespace" ∷ [];
    }
    ∷ record {
      name = "accelerator-frame-buffer-usage-max";
      query_string = expr "ros:accelerator_frame_buffer_usage_max";
      metric_key =
          ("accelerator_model_name", "modelName")
          ∷ ("container", "exported_container")
          ∷ ("namespace", "exported_namespace")
          ∷ ("pod", "exported_pod")
          ∷ ("node", "Hostname")
          ∷ ("accelerator_profile_name", "GPU_I_PROFILE")
          ∷ [];
      metric_key_regex = [];
      query_value = some (record {
        val_name = "accelerator-frame-buffer-usage-max";
        method = "";
        transformed_name = "";
      });
      row_key = "exported_container" ∷ "exported_pod" ∷ "exported_namespace" ∷ [];
    }
    ∷ record {
      name = "accelerator-frame-buffer-usage-avg";
      query_string = expr "ros:accelerator_frame_buffer_usage_avg";
      metric_key =
          ("accelerator_model_name", "modelName")
          ∷ ("container", "exported_container")
          ∷ ("namespace", "exported_namespace")
          ∷ ("pod", "exported_pod")
          ∷ ("node", "Hostname")
          ∷ ("accelerator_profile_name", "GPU_I_PROFILE")
          ∷ [];
      metric_key_regex = [];
      query_value = some (record {
        val_name = "accelerator-frame-buffer-usage-avg";
        method = "";
        transformed_name = "";
      });
      row_key = "exported_container" ∷ "exported_pod" ∷ "exported_namespace" ∷ [];
    }
    ∷ []
