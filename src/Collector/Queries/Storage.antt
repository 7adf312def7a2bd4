-- ===== src/Collector/Queries/Storage.antt =====
-- VolQueries of internal/collector/queries.go.
use koku_metrics_operator.Base.{none, some, List, [], ◌∷◌}
use koku_metrics_operator.Collector.Query.{Query}
use koku_metrics_operator.Collector.Queries.Expressions.{expr}

unfoldable pub vol_queries : List Query
unfolding expr
vol_queries =
    record {
      name = "persistentvolume-pod-info";
      query_string = expr "cost:persistentvolume_pod_info";
      metric_key = ("namespace", "namespace") ∷ ("pod", "pod") ∷ [];
      metric_key_regex = [];
      query_value = none;
      row_key = "volumename" ∷ [];
    }
    ∷ record {
      name = "persistentvolumeclaim-capacity-bytes";
      query_string = expr "cost:persistentvolumeclaim_capacity_bytes";
      metric_key = [];
      metric_key_regex = [];
      query_value = some (record {
        val_name = "persistentvolumeclaim-capacity-bytes";
        method = "max";
        transformed_name = "persistentvolumeclaim-capacity-byte-seconds";
      });
      row_key = "persistentvolume" ∷ [];
    }
    ∷ record {
      name = "persistentvolumeclaim-request-bytes";
      query_string = expr "cost:persistentvolumeclaim_request_bytes";
      metric_key = [];
      metric_key_regex = [];
      query_value = some (record {
        val_name = "persistentvolumeclaim-request-bytes";
        method = "max";
        transformed_name = "persistentvolumeclaim-request-byte-seconds";
      });
      row_key = "volumename" ∷ [];
    }
    ∷ record {
      name = "persistentvolumeclaim-usage-bytes";
      query_string = expr "cost:persistentvolumeclaim_usage_bytes";
      metric_key = ("node", "node") ∷ [];
      metric_key_regex = [];
      query_value = some (record {
        val_name = "persistentvolumeclaim-usage-bytes";
        method = "sum";
        transformed_name = "persistentvolumeclaim-usage-byte-seconds";
      });
      row_key = "volumename" ∷ [];
    }
    ∷ record {
      name = "persistentvolume-labels";
      query_string = expr "cost:persistentvolume_labels";
      metric_key =
          ("storageclass", "storageclass")
          ∷ ("persistentvolume", "persistentvolume")
          ∷ ("csi_driver", "csi_driver")
          ∷ ("csi_volume_handle", "csi_volume_handle")
          ∷ [];
      metric_key_regex = ("persistentvolume_labels", "label_*") ∷ [];
      query_value = none;
      row_key = "persistentvolume" ∷ [];
    }
    ∷ record {
      name = "persistentvolumeclaim-labels";
      query_string = expr "cost:persistentvolumeclaim_labels";
      metric_key =
          ("namespace", "namespace") ∷ ("persistentvolumeclaim", "persistentvolumeclaim") ∷ [];
      metric_key_regex = ("persistentvolumeclaim_labels", "label_") ∷ [];
      query_value = none;
      row_key = "volumename" ∷ [];
    }
    ∷ []
