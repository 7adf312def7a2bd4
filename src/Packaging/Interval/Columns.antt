-- ===== src/Packaging/Interval/Columns.antt =====
-- The collector's reports give the interval of their first and last rows.
use koku_metrics_operator.Base.{◌≡◌, refl, List, [], ◌∷◌, map, ok}
use koku_metrics_operator.Collector.Rows.{
  CsvStruct, namespace, node, pod, storage, vm, nvidia_gpu, ros_container, ros_namespace, dates,
  csv_header, csv_row,
}
use koku_metrics_operator.Packaging.Split.{Row, Reader, eof, row}
use koku_metrics_operator.Packaging.Interval.{get_index, get_last_row, field_at, get_start_end}

-- The rows of a report as a reader gives them, if the file ends without an error.
abbrev pub report_reader : List Row → Reader
report_reader [] = eof
report_reader (r ∷ rs) = row r (report_reader rs)

abbrev last_of : CsvStruct → List CsvStruct → CsvStruct
last_of r [] = r
last_of r (s ∷ rest) = last_of s rest

index_interval_start : (r : CsvStruct) → get_index (csv_header r) "interval_start" ≡ ok 2
unfolding csv_header get_index
index_interval_start (namespace r) = refl
index_interval_start (node r) = refl
index_interval_start (pod r) = refl
index_interval_start (storage r) = refl
index_interval_start (vm r) = refl
index_interval_start (nvidia_gpu r) = refl
index_interval_start (ros_container r) = refl
index_interval_start (ros_namespace r) = refl

index_interval_end : (r : CsvStruct) → get_index (csv_header r) "interval_end" ≡ ok 3
unfolding csv_header get_index
index_interval_end (namespace r) = refl
index_interval_end (node r) = refl
index_interval_end (pod r) = refl
index_interval_end (storage r) = refl
index_interval_end (vm r) = refl
index_interval_end (nvidia_gpu r) = refl
index_interval_end (ros_container r) = refl
index_interval_end (ros_namespace r) = refl

start_field : (r : CsvStruct) → field_at (csv_row r) 2 ≡ ok (dates r).interval_start
unfolding csv_row dates field_at
start_field (namespace r) = refl
start_field (node r) = refl
start_field (pod r) = refl
start_field (storage r) = refl
start_field (vm r) = refl
start_field (nvidia_gpu r) = refl
start_field (ros_container r) = refl
start_field (ros_namespace r) = refl

end_field : (r : CsvStruct) → field_at (csv_row r) 3 ≡ ok (dates r).interval_end
unfolding csv_row dates field_at
end_field (namespace r) = refl
end_field (node r) = refl
end_field (pod r) = refl
end_field (storage r) = refl
end_field (vm r) = refl
end_field (nvidia_gpu r) = refl
end_field (ros_container r) = refl
end_field (ros_namespace r) = refl

last_row :
    (r : CsvStruct) (rest : List CsvStruct)
    → get_last_row (report_reader (map csv_row rest)) (csv_row r) ≡ ok (csv_row (last_of r rest))
unfolding get_last_row
last_row r [] = refl
last_row r (s ∷ rest) = last_row s rest

-- For a report of any kind with at least one row, `getStartEnd` finds the two columns: it gives
-- the start of the interval of the first row and the end of the interval of the last row.
pub get_start_end-report :
    (r : CsvStruct) (rest : List CsvStruct)
    → get_start_end (ok (row (csv_header r) (row (csv_row r) (report_reader (map csv_row rest)))))
      ≡ ok
          (record { start = (dates r).interval_start; end = (dates (last_of r rest)).interval_end })
unfolding get_start_end
get_start_end-report r rest = rw (
  index_interval_start r,
  index_interval_end r,
  start_field r,
  last_row r rest,
  end_field (last_of r rest),
)
