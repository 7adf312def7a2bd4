-- ===== src/Tests/Reports.antt =====
-- The theorems on report files and their rows, applied to a report of two namespaces.
use koku_metrics_operator.Base.{
  ℕ, ◌≡◌, refl, String, Bool, true, false, Option, none, some, List, [], ◌∷◌, ◌++◌, length, take,
  drop, elem, distinct, All, Result, ok, starts_with, map,
}
use koku_metrics_operator.Base.Csv.{needs_quotes}
use koku_metrics_operator.Base.Csv.Plain.{IsPlain}
use koku_metrics_operator.Strset
use koku_metrics_operator.Strset.{Set, new_set}
use koku_metrics_operator.Strset.Laws.{Op, adding, removing, run, spec, run-spec_and_once}
use koku_metrics_operator.Collector.Rows.{
  CsvStruct, namespace, dates, csv_header, csv_row, row_string,
}
use koku_metrics_operator.Collector.Rows.Dates.{DateTimes, dates_string}
use koku_metrics_operator.Collector.Report.{Disk, no_faults, ReportData, scan_error, write_report}
use koku_metrics_operator.Collector.Report.Append.{lines_in}
use koku_metrics_operator.Collector.Report.Covered.{IsRow}
use koku_metrics_operator.Collector.Report.Rewrite.{
  write_report-idempotent, write_report-holds_rows,
}
use koku_metrics_operator.Packaging.Split.{row}
use koku_metrics_operator.Packaging.Interval.{get_start_end}
use koku_metrics_operator.Packaging.Interval.Columns.{report_reader, get_start_end-report}

abbrev some_dates : DateTimes
some_dates = record {
  report_period_start = "2026-01-01";
  report_period_end = "2026-02-01";
  interval_start = "2026-01-05 10:00:00";
  interval_end = "2026-01-05 10:59:59";
}

abbrev first_row : CsvStruct
first_row =
    namespace
      (record { dates = some_dates; namespace = "web"; namespace_labels = "label_env:prod" })

abbrev second_row : CsvStruct
second_row =
    namespace (record { dates = some_dates; namespace = "db"; namespace_labels = "label_env:test" })

abbrev some_data : ReportData
some_data = record {
  query_data = first_row ∷ second_row ∷ [];
  headers = "interval_start" ∷ "namespace" ∷ [];
  prefix = "2026-01-01,2026-02-01,2026-01-05 10:00:00,2026-01-05 10:59:59";
}

abbrev old_line : String
old_line = "2026-01-01,2026-02-01,2026-01-05 10:00:00,2026-01-05 10:59:59,web,label_env:prod"

abbrev some_disk : Disk
some_disk = record { dir_exists = true; file = some ("interval_start,namespace" ∷ old_line ∷ []) }

first_row-IsRow : IsRow some_data.prefix first_row
unfolding needs_quotes csv_row dates_string dates
first_row-IsRow = record {
  plain = (refl, (refl, (refl, (refl, (refl, (refl, tt))))));
  dated = refl;
}

second_row-IsRow : IsRow some_data.prefix second_row
unfolding needs_quotes csv_row dates_string dates
second_row-IsRow = record {
  plain = (refl, (refl, (refl, (refl, (refl, (refl, tt))))));
  dated = refl;
}

headers-IsPlain : IsPlain some_data.headers
unfolding needs_quotes
headers-IsPlain = (refl, (refl, tt))

scan_first : scan_error ("interval_start,namespace" ∷ old_line ∷ []) ≡ none
unfolding scan_error
scan_first = refl

scan_after : scan_error (lines_in (write_report no_faults some_data some_disk).1.file) ≡ none
unfolding scan_error write_report Strset.contains Strset.add new_set row_string csv_row
    koku_metrics_operator.Base.Csv.lines_of koku_metrics_operator.Base.Csv.write_record
scan_after = refl

write_report-holds_rows_example :
    All
      (λ r.
        elem (row_string r) (drop 1 (lines_in (write_report no_faults some_data some_disk).1.file))
        ≡ true)
      some_data.query_data
write_report-holds_rows_example =
    write_report-holds_rows some_data true "interval_start,namespace" (old_line ∷ [])
      (first_row-IsRow, (second_row-IsRow, tt)) scan_first

write_report-idempotent_example :
    (write_report no_faults some_data (write_report no_faults some_data some_disk).1).1
    ≡ (write_report no_faults some_data some_disk).1
write_report-idempotent_example =
    write_report-idempotent some_data some_disk (first_row-IsRow, (second_row-IsRow, tt))
      headers-IsPlain tt scan_after

abbrev some_ops : List Op
some_ops = adding "a" ∷ adding "b" ∷ adding "a" ∷ removing "b" ∷ []

run-spec_and_once_example :
    ((w : String) → Strset.contains (run some_ops new_set) w ≡ spec some_ops (λ _. false) w)
    × (distinct (Strset.range (run some_ops new_set)) ≡ true)
run-spec_and_once_example = run-spec_and_once some_ops

get_start_end-report_example :
    get_start_end (
      ok (
        row
          (csv_header first_row)
          (row (csv_row first_row) (report_reader (map csv_row (second_row ∷ []))))))
    ≡ ok (record { start = "2026-01-05 10:00:00"; end = "2026-01-05 10:59:59" })
unfolding dates
get_start_end-report_example = get_start_end-report first_row (second_row ∷ [])
