-- ===== src/Collector/Report/Rewrite.antt =====
-- Writing the same rows again adds nothing, and the rows that are written stand in the file.
use koku_metrics_operator.Base.{
  ℕ, zero, suc, take, ◌≡◌, refl, ◌∙◌, ap, sym, subst, String, Bool, true, ◌||◌, Option, none, some,
  List, [], ◌∷◌, ◌++◌, length, drop, elem, elem-append, All, arith,
}
use koku_metrics_operator.Base.Text.{join}
use koku_metrics_operator.Base.Csv.Plain.{IsPlain, lines_of-write_record}
use mathlib.Core.List.{append-nil}
use koku_metrics_operator.Strset
use koku_metrics_operator.Strset.{Set, new_set}
use koku_metrics_operator.Collector.Rows.{CsvStruct, row_string}
use koku_metrics_operator.Collector.Report.Append.{lines_in, write_report-append}
use koku_metrics_operator.Collector.Report.{
  Disk, no_faults, ReportData, scan_error, add_lines, row_lines, write_report,
}
use koku_metrics_operator.Collector.Report.Covered.{
  contains-read, IsRow, row_starts, covered, nothing_left, file-write_report, file-write_report_new,
}

module _ (p : String) (base : List String) (rows : List CsvStruct) where
  abbrev first_set : Set
  first_set = add_lines new_set p base

  abbrev all_lines : List String
  all_lines = base ++ row_lines first_set rows

  found_again :
      (some_rows : List CsvStruct)
      → All (IsRow p) some_rows
      → All
          (λ r. (Strset.contains first_set (row_string r) || elem (row_string r) all_lines) ≡ true)
          some_rows
      → All (λ r. Strset.contains (add_lines new_set p all_lines) (row_string r) ≡ true) some_rows
  found_again [] h k = tt
  found_again (r ∷ rest) h k = (
    ground (
      arith,
      k.0,
      row_starts p r h.0,
      contains-read p base (row_string r),
      contains-read p all_lines (row_string r),
      elem-append (row_string r) base (row_lines first_set rows),
    ),
    found_again rest h.1 k.1,
  )

  row_lines_again : All (IsRow p) rows → row_lines (add_lines new_set p all_lines) rows ≡ []
  row_lines_again h = nothing_left _ rows (
      found_again rows h (
        covered p first_set all_lines rows
          (λ x e. ground (arith, elem-append x base (row_lines first_set rows))) h))

scan_error-take : (n : ℕ) (xs : List String) → scan_error xs ≡ none → scan_error (take n xs) ≡ none
unfolding scan_error
scan_error-take zero xs h = refl
scan_error-take (suc n) [] h = refl
scan_error-take (suc n) (x ∷ xs) h = ground (arith, scan_error-take n xs)

-- The file is absent, or it has a first line, which `readCSV` takes for the header.
abbrev pub HasHeader : Option (List String) → Type 0
HasHeader none = Unit
HasHeader (some []) = ⊥
HasHeader (some (l ∷ ls)) = Unit

-- A file whose header is followed by these lines stays as it is.
settled :
    (d : ReportData) (header : String) (base : List String)
    → All (IsRow d.prefix) d.query_data
    → scan_error (header ∷ all_lines d.prefix base d.query_data) ≡ none
    → let disk : Disk = record {
      dir_exists = true;
      file = some (header ∷ all_lines d.prefix base d.query_data);
    } in
      (write_report no_faults d disk).1 ≡ disk
settled d header base rows scan =
    file-write_report d true (header ∷ all_lines d.prefix base d.query_data) scan
    ∙ ap {B = Disk}
        (λ t. record {
          dir_exists = true;
          file = some ((header ∷ all_lines d.prefix base d.query_data) ++ t);
        })
        (row_lines_again d.prefix base d.query_data rows)
    ∙ ap {B = Disk} (λ l. record { dir_exists = true; file = some l })
        (append-nil (header ∷ all_lines d.prefix base d.query_data))

-- After one write the file is a header and such lines.
settles :
    (d : ReportData) (next : Disk) (header : String) (base : List String)
    → next
      ≡ record { dir_exists = true; file = some (header ∷ all_lines d.prefix base d.query_data) }
    → All (IsRow d.prefix) d.query_data
    → scan_error (lines_in next.file) ≡ none
    → (write_report no_faults d next).1 ≡ next
settles d next header base e rows scan =
    subst (λ w. (write_report no_faults d w).1 ≡ w) (sym e)
      (settled d header base rows (subst (λ w. scan_error (lines_in w.file) ≡ none) e scan))

-- The first write, as one of the two cases that `HasHeader` leaves.
again :
    (d : ReportData) (b : Bool) (file : Option (List String))
    → let disk : Disk = record { dir_exists = b; file = file } in
      All (IsRow d.prefix) d.query_data
      → IsPlain d.headers
      → HasHeader file
      → scan_error (lines_in (write_report no_faults d disk).1.file) ≡ none
      → (write_report no_faults d (write_report no_faults d disk).1).1
        ≡ (write_report no_faults d disk).1
unfolding add_lines
again d b none rows plain has scan =
    settles d _ (join d.headers ",") []
      (rw (file-write_report_new d b, lines_of-write_record d.headers plain)) rows scan
again d b (some []) rows plain has scan = absurd has
again d b (some (l ∷ ls)) rows plain has scan =
    settles d _ l ls
      (file-write_report d b (l ∷ ls) (
        subst (λ t. scan_error t ≡ none)
          (write_report-append no_faults d (record { dir_exists = b; file = some (l ∷ ls) }))
          (scan_error-take (length (l ∷ ls)) _ scan)))
      rows scan

-- If the rows are plain and carry the report's dates, the file has a header unless it is absent,
-- and no line is too long for the scanner, then writing the same report a second time leaves the
-- file as the first time left it.
pub write_report-idempotent :
    (d : ReportData) (disk : Disk)
    → All (IsRow d.prefix) d.query_data
    → IsPlain d.headers
    → HasHeader disk.file
    → scan_error (lines_in (write_report no_faults d disk).1.file) ≡ none
    → (write_report no_faults d (write_report no_faults d disk).1).1
      ≡ (write_report no_faults d disk).1
write_report-idempotent d disk = again d disk.dir_exists disk.file

listed :
    (p : String) (base : List String) (all_rows rows : List CsvStruct)
    → All (IsRow p) rows
    → All
        (λ r.
          (Strset.contains (first_set p base all_rows) (row_string r)
            || elem (row_string r) (all_lines p base all_rows))
          ≡ true)
        rows
    → All (λ r. elem (row_string r) (all_lines p base all_rows) ≡ true) rows
listed p base all_rows [] h k = tt
listed p base all_rows (r ∷ rows) h k = (
  ground (
    arith,
    k.0,
    contains-read p base (row_string r),
    elem-append (row_string r) base (row_lines (first_set p base all_rows) all_rows),
  ),
  listed p base all_rows rows h.1 k.1,
)

-- If the rows are plain and carry the report's dates, the file has a header, no call fails and the
-- scanner can read the file, then afterwards the line of every row stands in the file behind its
-- header.
pub write_report-holds_rows :
    (d : ReportData) (b : Bool) (header : String) (lines : List String)
    → All (IsRow d.prefix) d.query_data
    → scan_error (header ∷ lines) ≡ none
    → let disk : Disk = record { dir_exists = b; file = some (header ∷ lines) } in
      All
        (λ r. elem (row_string r) (drop 1 (lines_in (write_report no_faults d disk).1.file)) ≡ true)
        d.query_data
write_report-holds_rows d b header lines rows scan =
    rw (file-write_report d b (header ∷ lines) scan) (
      listed d.prefix lines d.query_data d.query_data rows (
        covered d.prefix (first_set d.prefix lines d.query_data) _ d.query_data
          (λ x e. ground (
            arith,
            elem-append x lines (row_lines (first_set d.prefix lines d.query_data) d.query_data),
          ))
          rows))
