-- ===== src/Collector/Reports/Kept.antt =====
-- GenerateReports keeps what the reports have.
use koku_metrics_operator.Base.{
  String, Bool, true, false, Option, none, some, length, take, ◌≡◌, Result, ok, err,
}
use koku_metrics_operator.Base.Time.{Time}
use koku_metrics_operator.Collector.Rows.Dates.{Range}
use koku_metrics_operator.Collector.Results.{Results}
use koku_metrics_operator.Collector.Queries.{ros_container_queries, ros_namespace_queries}
use koku_metrics_operator.Collector.Queries.Node.{node_queries}
use koku_metrics_operator.Collector.Generate.Preserved.{Preserves, generate_reports-R}
use koku_metrics_operator.Collector.Shaping.{year_month}
use koku_metrics_operator.Collector.Reports.{
  ReportsEnv, Gathered, Done, get_query_range_results, get_instant_results,
}
use koku_metrics_operator.Collector.Reports.Optimization.{
  ros_container_report, ros_namespace_report, generated, if_enabled, are_namespaces_enabled,
  resource_optimization,
}
use koku_metrics_operator.Collector.Reports.Whole.{
  node_step, stages_of, generate_all, update_report_status,
}
use koku_metrics_operator.Collector.Reports.Grows.{
  lines_of_report, Grows, Grows-refl, Grows-trans, then_do-Grows, with_results-Grows,
  write_rows-Grows, range_results-Grows, instant_results-Grows, cost_management-Grows,
}

generated-Grows :
    {F : Type 0} (env : ReportsEnv F) (w : Gathered) (r : Done)
    → Grows w r.1
    → Grows w (generated env r).1
unfolding generated
generated-Grows env w (some e, v) h = h
generated-Grows env w (none, v) h = h

module _ {F : Type 0} (env : ReportsEnv F) (month : String) (ts : Range) where
  ros_container_report-Grows : (w : Gathered) → Grows w (ros_container_report env month ts w).1
  unfolding ros_container_report
  ros_container_report-Grows w =
      with_results-Grows w (get_instant_results env ts.end ros_container_queries w) _
        (instant_results-Grows env ts.end ros_container_queries w)
        (λ results v. write_rows-Grows env _ month _ _ _ v)

  ros_namespace_report-Grows : (w : Gathered) → Grows w (ros_namespace_report env month ts w).1
  unfolding ros_namespace_report
  ros_namespace_report-Grows w =
      with_results-Grows w (get_instant_results env ts.end ros_namespace_queries w) _
        (instant_results-Grows env ts.end ros_namespace_queries w)
        (λ results v. write_rows-Grows env _ month _ _ _ v)

  if_enabled-Grows :
      (w : Gathered) (r : Result String Bool × Gathered)
      → Grows w r.1
      → Grows w (if_enabled env month ts r).1
  unfolding if_enabled
  if_enabled-Grows w (err e, v) h = h
  if_enabled-Grows w (ok false, v) h = h
  if_enabled-Grows w (ok true, v) h = Grows-trans w v _ h (
      generated-Grows env v _
        (then_do-Grows v _ _ (ros_container_report-Grows v) ros_namespace_report-Grows))

  resource_optimization-Grows : (w : Gathered) → Grows w (resource_optimization env month ts w).1
  unfolding resource_optimization are_namespaces_enabled
  resource_optimization-Grows w =
      if_enabled-Grows w (are_namespaces_enabled env ts.end w)
        (record { kept = (Grows-refl w).kept })

node_step-Grows :
    {F : Type 0} (env : ReportsEnv F) (w : Gathered) (r : Result String Results × Gathered)
    → Grows w r.1
    → Grows w (node_step env r).1
unfolding node_step
node_step-Grows env w (err e, v) h = h
node_step-Grows env w (ok results, v) h = record { kept = h.kept }

stages_of-Preserves :
    {F : Type 0} (env : ReportsEnv F) (disable_cost disable_optimization : Option Bool)
    (start : Time)
    → Preserves (stages_of env disable_cost disable_optimization start) Grows
unfolding stages_of
stages_of-Preserves env disable_cost disable_optimization start = record {
  R_refl = Grows-refl;
  R_trans = Grows-trans;
  by_node_results = λ ts w.
      node_step-Grows env w (get_query_range_results env ts node_queries w)
        (range_results-Grows env ts node_queries w);
  by_node_rows = λ ts w. record { kept = (Grows-refl w).kept };
  by_cost = λ ts w. cost_management-Grows env (year_month start) ts w;
  by_optimization = λ ts w. resource_optimization-Grows env (year_month start) ts w;
}

-- Whatever queries answer and whatever calls of the file system fail, GenerateReports keeps the lines
-- of every report file: they stand in front of what it adds.
pub generate_all-keeps_lines :
    {F : Type 0} (env : ReportsEnv F) (disable_cost disable_optimization : Option Bool) (ts : Range)
    (w : Gathered) (name : String)
    → (let w' = (generate_all env disable_cost disable_optimization ts w).world in
        take (length (lines_of_report name w.files)) (lines_of_report name w'.files)
        ≡ lines_of_report name w.files)
unfolding generate_all update_report_status
generate_all-keeps_lines env disable_cost disable_optimization ts w name =
    let stages = stages_of env disable_cost disable_optimization ts.start in
    (generate_reports-R stages Grows
        (stages_of-Preserves env disable_cost disable_optimization ts.start) ts
        (update_report_status ts w)).kept
      name
