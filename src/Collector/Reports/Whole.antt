-- ===== src/Collector/Reports/Whole.antt =====
-- GenerateReports of internal/collector/collector.go with its reports.
use koku_metrics_operator.Base.{
  ℕ, ◌+◌, ◌/◌, ◌%◌, ◌<>◌, String, Bool, Option, none, length, Result, ok, err,
}
use koku_metrics_operator.Base.Decimal.{padded}
use koku_metrics_operator.Base.Time.{Time, year_of, month_day_of, hour_of, minute, second}
use koku_metrics_operator.Collector.Rows.Dates.{Range}
use koku_metrics_operator.Collector.Results.{Results}
use koku_metrics_operator.Collector.Queries.Node.{node_queries}
use koku_metrics_operator.Collector.Generate.{
  Generated, reports_written, ros_no_enabled_namespaces, Stages,
}
use koku_metrics_operator.Collector.Generate
use koku_metrics_operator.Collector.Shaping.{year_month, with_resource_ids, rows_of_nodes}
use koku_metrics_operator.Collector.Reports.{
  ReportsEnv, Gathered, get_query_range_results, cost_management,
}
use koku_metrics_operator.Collector.Reports.Optimization.{resource_optimization}

module _ {F : Type 0} (env : ReportsEnv F) where
  unfoldable pub node_step : Result String Results × Gathered → Result String ℕ × Gathered
  unfolding with_resource_ids
  node_step (err e, w) = (err e, w)
  node_step (ok results, w) =
      (ok (length results), record w { node_values = with_resource_ids results })

  -- The parts of GenerateReports for an hour, whose month all of its reports are named by.
  unfoldable pub stages_of : Option Bool → Option Bool → Time → Stages Gathered
  stages_of disable_cost disable_optimization start = record {
    disable_cost_management = disable_cost;
    disable_resource_optimization = disable_optimization;
    node_results = λ ts w. node_step (get_query_range_results env ts node_queries w);
    node_rows = λ ts w. (none, record w { node_rows = rows_of_nodes ts w.node_values });
    cost_management = cost_management env (year_month start);
    resource_optimization = resource_optimization env (year_month start);
  }

-- Format with `statusTimeFormat`
status_time : Time → String
unfolding year_of month_day_of padded
status_time t =
    let md = month_day_of t in
    padded 4 (year_of t)
    <> ("-"
        <> (padded 2 md.month
            <> ("-"
                <> (padded 2 (md.mday + 1)
                    <> (" "
                        <> (padded 2 (hour_of t)
                            <> (":"
                                <> (padded 2 (t / minute % 60)
                                    <> (":" <> padded 2 (t / second % 60))))))))))

-- updateReportStatus
unfoldable pub update_report_status : Range → Gathered → Gathered
unfolding status_time month_day_of padded
update_report_status ts w = record w {
  report_status = record {
    report_month = padded 2 (month_day_of ts.start).month;
    last_hour_queried = status_time ts.start <> (" - " <> status_time ts.end);
  };
}

-- GenerateReports with its reports.
unfoldable pub generate_all :
    {F : Type 0}
    → ReportsEnv F
    → Option Bool
    → Option Bool
    → Range
    → Gathered
    → Generate.Ran Gathered
unfolding stages_of update_report_status Generate.generate_reports
generate_all env disable_cost disable_optimization ts w =
    Generate.generate_reports (stages_of env disable_cost disable_optimization ts.start) ts
      (update_report_status ts w)
