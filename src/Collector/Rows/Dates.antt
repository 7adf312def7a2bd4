-- ===== src/Collector/Rows/Dates.antt =====
-- `dateTimes` of internal/collector/types.go.
use koku_metrics_operator.Base.{◌+◌, String, List, [], ◌∷◌}
use koku_metrics_operator.Base.Text.{join}
use koku_metrics_operator.Base.Time.{Time, year_of, month_day_of, first_of_month, time_string}

-- promv1.Range without its step
pub record Range : Type 0 where
  pub start : Time
  pub end : Time

pub record DateTimes : Type 0 where
  pub report_period_start : String
  pub report_period_end : String
  pub interval_start : String
  pub interval_end : String

-- The report period is the month of the interval's start: its first instant, and the first
-- instant of the month behind it.
unfoldable pub period_start : Time → Time
unfolding year_of month_day_of first_of_month
period_start t = first_of_month (year_of t) (month_day_of t).month

unfoldable pub period_end : Time → Time
unfolding year_of month_day_of first_of_month
period_end t = first_of_month (year_of t) ((month_day_of t).month + 1)

unfoldable pub new_dates : Range → DateTimes
unfolding period_start period_end time_string
new_dates ts = record {
  report_period_start = time_string (period_start ts.start);
  report_period_end = time_string (period_end ts.start);
  interval_start = time_string ts.start;
  interval_end = time_string ts.end;
}

unfoldable pub csv_row : DateTimes → List String
csv_row d = d.report_period_start ∷ d.report_period_end ∷ d.interval_start ∷ d.interval_end ∷ []

unfoldable pub dates_string : DateTimes → String
unfolding csv_row join
dates_string d = join (csv_row d) ","
