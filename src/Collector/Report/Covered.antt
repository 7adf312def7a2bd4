-- ===== src/Collector/Report/Covered.antt =====
-- The rows that writeToFile of internal/collector/report.go finds in the file, and those it adds.
use koku_metrics_operator.Base.{
  ◌≡◌, refl, subst, String, eq_iff, starts_with, Bool, true, false, ◌&&◌, ◌||◌, none, some, List,
  [], ◌∷◌, ◌++◌, drop, elem, elem-append, All, arith, if◌then◌else◌,
}
use koku_metrics_operator.Base.Csv.{write_record, lines_of}
use koku_metrics_operator.Base.Csv.Plain.{IsPlain, lines_of-write_record}
use koku_metrics_operator.Strset
use koku_metrics_operator.Strset.{Set, new_set}
use koku_metrics_operator.Strset.Laws.{contains-add, contains-new_set}
use koku_metrics_operator.Collector.Rows.{CsvStruct, dates, csv_row, row_string}
use koku_metrics_operator.Collector.Rows.Dates.{dates_string}
use koku_metrics_operator.Collector.Rows.Columns.{starts_with-row_string}
use koku_metrics_operator.Collector.Report.{
  no_faults, ReportData, scan_error, scanned, add_lines, read_csv, row_lines, output, put_lines,
  finish, write_report,
}

scanned_whole : (ls : List String) → scan_error ls ≡ none → scanned ls ≡ ls
unfolding scanned scan_error
scanned_whole [] h = refl
scanned_whole (l ∷ ls) h = ground (arith, scanned_whole ls)

contains-add_lines :
    (s : Set) (p : String) (ls : List String) (x : String)
    → Strset.contains (add_lines s p ls) x ≡ (Strset.contains s x || (elem x ls && starts_with x p))
unfolding add_lines
contains-add_lines s p [] x = ground arith
contains-add_lines s p (l ∷ ls) x = ground (
  arith,
  contains-add_lines s p ls x,
  contains-add_lines (Strset.add s l) p ls x,
  contains-add s l x,
  eq_iff l x,
)

-- The set that `readCSV` builds has the lines behind the header that begin with the prefix.
pub contains-read :
    (p : String) (ls : List String) (x : String)
    → Strset.contains (add_lines new_set p ls) x ≡ (elem x ls && starts_with x p)
contains-read p ls x = rw (contains-add_lines new_set p ls x, contains-new_set x)

-- A row that can be found again: plain fields, and the dates of the report.
pub record IsRow (p : String) (r : CsvStruct) : Type 0 where
  pub plain : IsPlain (csv_row r)
  pub dated : dates_string (dates r) ≡ p

pub row_starts : (p : String) (r : CsvStruct) → IsRow p r → starts_with (row_string r) p ≡ true
row_starts p r h =
    subst (λ q. starts_with (row_string r) q ≡ true) h.dated (starts_with-row_string r)

row_line :
    (p : String) (r : CsvStruct)
    → IsRow p r
    → lines_of (write_record (csv_row r)) ≡ row_string r ∷ []
unfolding row_string
row_line p r h = lines_of-write_record (csv_row r) h.plain

module _ (p : String) (s : Set) (t : List String) where
  -- Every row was among the lines that were read, or is among those that are written.
  pub covered :
      (rows : List CsvStruct)
      → ((x : String) → elem x (row_lines s rows) ≡ true → elem x t ≡ true)
      → All (IsRow p) rows
      → All (λ r. (Strset.contains s (row_string r) || elem (row_string r) t) ≡ true) rows
  unfolding row_lines
  covered [] f h = tt
  covered (r ∷ rows) f h = (
    ground (
      arith,
      row_line p r h.0,
      f (row_string r),
      eq_iff (row_string r) (row_string r),
      elem-append (row_string r) (lines_of (write_record (csv_row r))) (row_lines s rows),
    ),
    covered rows
        (λ x e. f x (
          ground (
            arith,
            elem-append x
                (if Strset.contains s (row_string r)
                  then []
                  else lines_of (write_record (csv_row r)))
                (row_lines s rows),
          )))
        h.1,
  )

pub nothing_left :
    (s : Set) (rows : List CsvStruct)
    → All (λ r. Strset.contains s (row_string r) ≡ true) rows
    → row_lines s rows ≡ []
unfolding row_lines
nothing_left s [] h = refl
nothing_left s (r ∷ rows) h = rw h.0 (nothing_left s rows h.1)

abbrev pub new_lines : ReportData → List String → List String
new_lines d lines = row_lines (add_lines new_set d.prefix (drop 1 lines)) d.query_data

-- A report over a file that can be read appends the rows that are not there.
pub file-write_report :
    (d : ReportData) (b : Bool) (lines : List String)
    → scan_error lines ≡ none
    → (write_report no_faults d (record { dir_exists = b; file = some lines })).1
      ≡ record { dir_exists = true; file = some (lines ++ new_lines d lines) }
unfolding write_report finish output put_lines
file-write_report d true lines h = rw (h, read_csv) (rw (scanned_whole lines h))
file-write_report d false lines h = rw (h, read_csv) (rw (scanned_whole lines h))

pub file-write_report_new :
    (d : ReportData) (b : Bool)
    → (write_report no_faults d (record { dir_exists = b; file = none })).1 ≡ record {
      dir_exists = true;
      file = some (lines_of (write_record d.headers) ++ row_lines new_set d.query_data);
    }
unfolding write_report finish output put_lines
file-write_report_new d true = refl
file-write_report_new d false = refl
