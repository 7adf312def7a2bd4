-- ===== src/Collector/Reports/Optimization.antt =====
-- The reports for resource optimization: getVectorQuerySimple of internal/collector/prometheus.go, and
-- areNamespacesEnabled and generateResourceOptimizationReports of internal/collector/collector.go.
use koku_metrics_operator.Base.{
  ◌+◌, String, ◌<>◌, Bool, true, false, not, none, some, List, [], ◌∷◌, map, length, ◌++◌, ◌==◌,
  Result, ok, err,
}
use koku_metrics_operator.Base.Dict.{lookup}
use koku_metrics_operator.Base.Time.{Time}
use koku_metrics_operator.Collector.Rows.{CsvStruct, csv_header, dates}
use koku_metrics_operator.Collector.Rows
use koku_metrics_operator.Collector.Rows.Dates.{Range}
use koku_metrics_operator.Collector.Query.{Query, Answer, answered, other_type, failed}
use koku_metrics_operator.Collector.Results.{Sample, get}
use koku_metrics_operator.Collector.Decode.{ros_container_row, ros_namespace_row}
use koku_metrics_operator.Collector.Queries.{ros_container_queries, ros_namespace_queries}
use koku_metrics_operator.Collector.Queries.RosNamespace.{ros_namespace_filter}
use koku_metrics_operator.Collector.Generate.{Generated, reports_written, ros_no_enabled_namespaces}
use koku_metrics_operator.Collector.Shaping.{ros_container_row_on_node, rows}
use koku_metrics_operator.Collector.Reports.{
  ReportsEnv, Gathered, Done, then_do, with_results, get_instant_results, write_rows,
}

module _ {F : Type 0} (env : ReportsEnv F) where
  -- getVectorQuerySimple
  simple_answer : Query → Answer (List (Sample F)) → Result String (List (Sample F))
  simple_answer q (failed e) =
      err ("query: " <> (q.query_string <> (": error querying prometheus: " <> e)))
  simple_answer q (other_type t) = err ("expected a vector in response to query, got a " <> t)
  simple_answer q (answered vector) = ok vector

  namespaces_of : List (Sample F) → List (String × String) → List String
  unfolding lookup
  namespaces_of [] keys = []
  namespaces_of (sample ∷ vector) keys =
      map (λ key. get key.1 sample.metric) keys ++ namespaces_of vector keys

  any_namespace : Result String (List (Sample F)) → Result String Bool
  unfolding namespaces_of ros_namespace_filter
  any_namespace (err e) = err ("failed to query for namespaces: " <> e)
  any_namespace (ok vector) =
      ok (not (length (namespaces_of vector ros_namespace_filter.metric_key) == 0))

  -- areNamespacesEnabled
  unfoldable pub are_namespaces_enabled : Time → Gathered → Result String Bool × Gathered
  unfolding simple_answer any_namespace ros_namespace_filter
  are_namespaces_enabled ts w = (
    any_namespace (simple_answer ros_namespace_filter (env.query ts w.calls ros_namespace_filter)),
    record w { calls = w.calls + 1 },
  )

  unfoldable pub ros_container_report : String → Range → Gathered → Done
  ros_container_report month ts w =
      with_results (get_instant_results env ts.end ros_container_queries w) (λ results w'.
        write_rows env "ros-openshift-container-" month "resource-optimization container"
          (rows (λ val. Rows.ros_container (ros_container_row_on_node ts w'.node_rows val)) results)
          (Rows.ros_container (ros_container_row ts [])) w')

  unfoldable pub ros_namespace_report : String → Range → Gathered → Done
  ros_namespace_report month ts w =
      with_results (get_instant_results env ts.end ros_namespace_queries w) (λ results w'.
        write_rows env "ros-openshift-namespace-" month "resource-optimization namespace"
          (rows (λ val. Rows.ros_namespace (ros_namespace_row ts val)) results)
          (Rows.ros_namespace (ros_namespace_row ts [])) w')

  unfoldable pub generated : Done → Generated × Gathered
  generated (some e, w) = (Generated.failure e, w)
  generated (none, w) = (reports_written, w)

  unfoldable pub if_enabled : String → Range → Result String Bool × Gathered → Generated × Gathered
  if_enabled month ts (err e, w) = (Generated.failure e, w)
  if_enabled month ts (ok false, w) = (ros_no_enabled_namespaces, w)
  if_enabled month ts (ok true, w) =
      generated (then_do (ros_container_report month ts w) (ros_namespace_report month ts))

  -- generateResourceOptimizationReports
  unfoldable pub resource_optimization : String → Range → Gathered → Generated × Gathered
  resource_optimization month ts w = if_enabled month ts (are_namespaces_enabled ts.end w)
