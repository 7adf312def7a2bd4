-- ===== src/Collector/Rows/Columns.antt =====
-- The header of a report and its rows have the same columns, and a row begins with its dates.
use text.Mathlib.TextLemmas.{append-nil, append_assoc}
use text.Mathlib.TextPositions.{starts_with-append, starts_with_of_prefix}
use koku_metrics_operator.Base.{
  ◌≡◌, refl, String, ◌<>◌, starts_with, true, List, [], ◌∷◌, length, drop, distinct,
}
use koku_metrics_operator.Base.Text.{join}
use koku_metrics_operator.Collector.Rows.{
  CsvStruct, namespace, node, pod, storage, vm, nvidia_gpu, ros_container, ros_namespace, dates,
  csv_header, csv_row, row_string,
}
use koku_metrics_operator.Collector.Rows.Dates.{DateTimes, dates_string}

-- Every row has one field for each column of its header.
pub length-csv_row : (r : CsvStruct) → length (csv_row r) ≡ length (csv_header r)
unfolding csv_row csv_header
length-csv_row (namespace r) = refl
length-csv_row (node r) = refl
length-csv_row (pod r) = refl
length-csv_row (storage r) = refl
length-csv_row (vm r) = refl
length-csv_row (nvidia_gpu r) = refl
length-csv_row (ros_container r) = refl
length-csv_row (ros_namespace r) = refl

-- No two columns of a header have the same name.
pub csv_header-distinct : (r : CsvStruct) → distinct (csv_header r) ≡ true
unfolding csv_header
csv_header-distinct (namespace r) = refl
csv_header-distinct (node r) = refl
csv_header-distinct (pod r) = refl
csv_header-distinct (storage r) = refl
csv_header-distinct (vm r) = refl
csv_header-distinct (nvidia_gpu r) = refl
csv_header-distinct (ros_container r) = refl
csv_header-distinct (ros_namespace r) = refl

-- A line whose first four fields are the dates begins with their text.
dates_first :
    (d : DateTimes) (rest : List String)
    → starts_with
        (join
          (d.report_period_start ∷ d.report_period_end ∷ d.interval_start ∷ d.interval_end ∷ rest)
          ",")
        (dates_string d)
      ≡ true
unfolding dates_string
dates_first d [] = starts_with_of_prefix _ _ ("", append-nil _)
dates_first d (x ∷ rest) =
    simp append_assoc at (starts_with-append (dates_string d) ("," <> join (x ∷ rest) ","))

-- The line of a row begins with the text of its dates, the prefix by which `readCSV` selects the
-- lines of an interval.
pub starts_with-row_string :
    (r : CsvStruct) → starts_with (row_string r) (dates_string (dates r)) ≡ true
unfolding row_string csv_row dates
starts_with-row_string (namespace r) = dates_first r.dates (drop 4 (csv_row (namespace r)))
starts_with-row_string (node r) = dates_first r.dates (drop 4 (csv_row (node r)))
starts_with-row_string (pod r) = dates_first r.dates (drop 4 (csv_row (pod r)))
starts_with-row_string (storage r) = dates_first r.dates (drop 4 (csv_row (storage r)))
starts_with-row_string (vm r) = dates_first r.dates (drop 4 (csv_row (vm r)))
starts_with-row_string (nvidia_gpu r) = dates_first r.dates (drop 4 (csv_row (nvidia_gpu r)))
starts_with-row_string (ros_container r) = dates_first r.dates (drop 4 (csv_row (ros_container r)))
starts_with-row_string (ros_namespace r) = dates_first r.dates (drop 4 (csv_row (ros_namespace r)))
