-- ===== src/Collector/Reports.antt =====
-- The reports of GenerateReports: generateCost…Report, generateResourceOptimizationReports and what they
-- call, in internal/collector/collector.go. The state is the report files by their names. A directory
-- of reports is there, since the reconciler makes it. A panic of a query, which is that of a maximum of
-- no samples, counts as an error.

pub mod Optimization
pub mod Whole
pub mod Grows
pub mod Kept
use koku_metrics_operator.Base.{
  ℕ, zero, ◌+◌, String, ◌<>◌, str_eq, Bool, true, false, not, Option, none, some, List, [], ◌∷◌,
  map, length, ◌++◌, ◌==◌, Result, ok, err, if◌then◌else◌,
}
use koku_metrics_operator.Base.Text.{join, last_piece}
use koku_metrics_operator.Base.Space.{trim_space}
use koku_metrics_operator.Base.Dict.{lookup, insert}
use koku_metrics_operator.Base.Order.{sort_texts}
use koku_metrics_operator.Base.Decimal.{padded}
use koku_metrics_operator.Base.Time.{Time, year_of, month_day_of}
use koku_metrics_operator.Collector.Rows.{CsvStruct, csv_header, dates}
use koku_metrics_operator.Collector.Rows
use koku_metrics_operator.Collector.Rows.Dates.{Range, dates_string}
use koku_metrics_operator.Collector.Rows.Node.{NodeRow}
use koku_metrics_operator.Collector.Rows.Pod.{PodRow}
use koku_metrics_operator.Collector.Rows.RosContainer.{RosContainerRow}
use koku_metrics_operator.Collector.Report.{Disk, Faults, write_report}
use koku_metrics_operator.Collector.Query.{
  Query, Answer, QueryError, failure, panicked, answered, other_type, failed, Asked, Source,
  max_retries, get_query_results,
}
use koku_metrics_operator.Collector.Results.{
  Lib, Values, Results, Sample, Stream, get, iterate_vector, iterate_matrix,
}
use koku_metrics_operator.Collector.Decode.{
  node_row, namespace_row, pod_row, storage_row, vm_row, nvidia_gpu_row, ros_container_row,
  ros_namespace_row,
}
use koku_metrics_operator.Collector.Queries.{ros_container_queries, ros_namespace_queries}
use koku_metrics_operator.Collector.Queries.Node.{node_queries, namespace_queries}
use koku_metrics_operator.Collector.Queries.Pod.{pod_queries}
use koku_metrics_operator.Collector.Queries.Storage.{vol_queries}
use koku_metrics_operator.Collector.Queries.Vm.{vm_queries}
use koku_metrics_operator.Collector.Queries.NvidiaGpu.{
  nvidia_gpu_memory_capacity_non_mig_queries, nvidia_gpu_memory_capacity_mig_queries,
  nvidia_gpu_utilization_queries, nvidia_gpu_max_slices_queries,
}
use koku_metrics_operator.Collector.Queries.RosNamespace.{ros_namespace_filter}
use koku_metrics_operator.Collector.Generate.{
  Generated, reports_written, ros_no_enabled_namespaces, Stages,
}
use koku_metrics_operator.Collector.Generate
use koku_metrics_operator.Collector.Shaping.{
  year_month, get_resource_id, with_resource_id, with_resource_ids, rows_of_nodes, row_of_node,
  pod_row_on_node, ros_container_row_on_node, with_capacity, rows,
}

-- The connection, by the range or the time and the number of queries before, and the calls of the file
-- system that fail, by the name of the report.
pub record ReportsEnv (F : Type 0) : Type 0 where
  pub lib : Lib F
  pub query_range : Range → ℕ → Query → Answer (List (Stream F))
  pub query : Time → ℕ → Query → Answer (List (Sample F))
  pub faults : String → Faults

-- ReportsStatus, without what collectPromStats sets.
pub record ReportsStatus : Type 0 where
  pub report_month : String
  pub last_hour_queried : String

-- The number of queries, the report files, the results of the node queries, and the rows of nodes.
pub record Gathered : Type 0 where
  pub calls : ℕ
  pub files : List (String × Disk)
  pub node_values : Results
  pub node_rows : List (String × NodeRow)
  pub report_status : ReportsStatus

-- A step of the reports: its error, and the state.
abbrev pub Done : Type 0
Done = Option String × Gathered

disk_of : Option Disk → Disk
disk_of none = record { dir_exists = true; file = none }
disk_of (some disk) = disk

unfoldable pub then_do : Done → (Gathered → Done) → Done
then_do (some e, w) rest = (some e, w)
then_do (none, w) rest = rest w

unfoldable pub with_results : Result String Results × Gathered → (Results → Gathered → Done) → Done
with_results (err e, w) rest = (some e, w)
with_results (ok results, w) rest = rest results w

asked_results : Gathered → Result QueryError (Asked Results) → Result String Results × Gathered
asked_results w (ok st) = (ok st.results, record w { calls = st.calls })
asked_results w (err (failure e)) = (err e, w)
asked_results w (err panicked) = (err "panic", w)

module _ {F : Type 0} (env : ReportsEnv F) where
  -- getQueryRangeResults and getQueryResults into new results.
  unfoldable pub get_query_range_results :
      Range → List Query → Gathered → Result String Results × Gathered
  unfolding asked_results get_query_results iterate_matrix
  get_query_range_results ts queries w = asked_results w (
      get_query_results
        (record {
          ask = env.query_range ts;
          iterate = λ matrix q results. iterate_matrix env.lib matrix q results;
        })
        max_retries queries (record { calls = w.calls; results = []; waited = 0 }))

  unfoldable pub get_instant_results :
      Time → List Query → Gathered → Result String Results × Gathered
  unfolding asked_results get_query_results iterate_vector
  get_instant_results ts queries w = asked_results w (
      get_query_results
        (record {
          ask = env.query ts;
          iterate = λ vector q results. some (iterate_vector env.lib vector q results);
        })
        max_retries queries (record { calls = w.calls; results = []; waited = 0 }))

  written : String → String → Result String ℕ × Disk → Gathered → Done
  unfolding insert
  written name what (ok size, disk) w = (none, record w { files = insert name disk w.files })
  written name what (err e, disk) w = (
    some ("failed to write " <> (what <> (" report: " <> e))),
    record w { files = insert name disk w.files },
  )

  -- A report of rows is written to its file; the header and the prefix are those of an empty row.
  unfoldable pub write_rows :
      String → String → String → List CsvStruct → CsvStruct → Gathered → Done
  unfolding written disk_of write_report csv_header dates dates_string lookup
  write_rows prefix month what query_data empty w =
      let name = prefix <> (month <> ".csv") in
      written name what
        (write_report (env.faults name)
          (record {
            query_data = query_data;
            headers = csv_header empty;
            prefix = dates_string (dates empty);
          })
          (disk_of (lookup name w.files)))
        w

  -- generateCostNodeMetricsReport
  unfoldable pub node_report : String → Range → Gathered → Done
  node_report month ts w =
      write_rows "cm-openshift-node-usage-" month "node"
        (map (λ entry. Rows.node entry.1) w.node_rows) (Rows.node (node_row ts [])) w

  -- generateCostPodMetricsReport
  unfoldable pub pod_report : String → Range → Gathered → Done
  pod_report month ts w = with_results (get_query_range_results ts pod_queries w) (λ results w'.
      write_rows "cm-openshift-pod-usage-" month "pod"
        (rows (λ val. Rows.pod (pod_row_on_node ts w'.node_rows val)) results)
        (Rows.pod (pod_row ts [])) w')

  -- generateCostStorageMetricsReport
  unfoldable pub storage_report : String → Range → Gathered → Done
  storage_report month ts w = with_results (get_query_range_results ts vol_queries w) (λ results w'.
      write_rows "cm-openshift-storage-usage-" month "storage"
        (rows (λ val. Rows.storage (storage_row ts val)) results) (Rows.storage (storage_row ts []))
        w')

  -- generateCostVMMetricsReport
  unfoldable pub vm_report : String → Range → Gathered → Done
  vm_report month ts w = with_results (get_query_range_results ts vm_queries w) (λ results w'.
      write_rows "cm-openshift-vm-usage-" month "cost vm"
        (rows (λ val. Rows.vm (vm_row ts (with_resource_id val))) results) (Rows.vm (vm_row ts []))
        w')

  -- generateCostNamespaceMetricsReport
  unfoldable pub namespace_report : String → Range → Gathered → Done
  namespace_report month ts w =
      with_results (get_query_range_results ts namespace_queries w) (λ results w'.
        write_rows "cm-openshift-namespace-usage-" month "cost namespace"
          (rows (λ val. Rows.namespace (namespace_row ts val)) results)
          (Rows.namespace (namespace_row ts [])) w')

  -- generateCostNvidiaGpuMetricsReport
  unfoldable pub nvidia_gpu_report : String → Range → Gathered → Done
  nvidia_gpu_report month ts w =
      with_results (get_query_range_results ts nvidia_gpu_memory_capacity_mig_queries w) (λ mig w₁.
        with_results (get_query_range_results ts nvidia_gpu_memory_capacity_non_mig_queries w₁)
          (λ non_mig w₂.
            with_results (get_query_range_results ts nvidia_gpu_utilization_queries w₂) (λ used w₃.
              with_results (get_query_range_results ts nvidia_gpu_max_slices_queries w₃)
                (λ slices w₄.
                  write_rows "cm-openshift-nvidia-gpu-usage-" month "cost nvidia gpu"
                    (map
                      (λ entry.
                        Rows.nvidia_gpu
                          (nvidia_gpu_row ts (with_capacity mig non_mig slices entry.0 entry.1)))
                      used)
                    (Rows.nvidia_gpu (nvidia_gpu_row ts [])) w₄))))

  -- generateCostManagementReports
  unfoldable pub cost_management : String → Range → Gathered → Done
  cost_management month ts w = then_do (node_report month ts w) (λ w₁.
      then_do (pod_report month ts w₁) (λ w₂. then_do (storage_report month ts w₂) (λ w₃.
        then_do (vm_report month ts w₃)
          (λ w₄. then_do (namespace_report month ts w₄) (nvidia_gpu_report month ts)))))
