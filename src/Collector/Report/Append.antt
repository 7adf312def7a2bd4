-- ===== src/Collector/Report/Append.antt =====
-- A report file is only ever appended to.
use koku_metrics_operator.Base.{
  ℕ, ◌≡◌, refl, ◌∙◌, ap, sym, subst, String, Bool, Option, none, some, List, [], length, take,
  take-append, take-length, arith, Result, ok, err,
}
use koku_metrics_operator.Strset.{Set, new_set}
use koku_metrics_operator.Collector.Report.{
  Disk, Faults, ReportData, read_csv, output, put_lines, write_to_file, finish, write_rows,
  get_or_create_file, write_open, write_report,
}

abbrev pub lines_in : Option (List String) → List String
lines_in none = []
lines_in (some lines) = lines

put_lines-append :
    (w : Option (ℕ × String)) (lines out : List String)
    → take (length lines) (put_lines w lines out).1 ≡ lines
unfolding put_lines
put_lines-append none lines out = take-append lines out
put_lines-append (some (n, e)) lines out = take-append lines (take n out)

file-finish :
    (fl : Faults) (disk : Disk) (r : Result String Unit) (lines : List String)
    → (finish fl disk r lines).1.file ≡ some lines
unfolding finish
file-finish fl disk (err e) lines = refl
file-finish fl disk (ok _) lines = ground arith

write_rows-append :
    (fl : Faults) (d : ReportData) (lines : List String) (created : Bool) (disk : Disk)
    (s : Result String Set)
    → lines_in disk.file ≡ lines
    → take (length lines) (lines_in (write_rows fl d lines created disk s).1.file) ≡ lines
unfolding write_rows write_to_file
write_rows-append fl d lines created disk (err e) h = ap (take (length lines)) h ∙ take-length lines
write_rows-append fl d lines created disk (ok s) h =
    ap (λ f. take (length lines) (lines_in f)) (file-finish fl disk _ _)
    ∙ put_lines-append fl.write lines (output d s created)

-- What was opened is what the file holds, and opening changes no line.
lines_of_opened : Result String (List String × Bool) → List String → List String
lines_of_opened (ok (lines, _)) other = lines
lines_of_opened (err e) other = other

get_or_create_file-keeps :
    (fl : Faults) (disk : Disk)
    → (lines_in (get_or_create_file fl disk).1.file ≡ lines_in disk.file)
      × (lines_of_opened (get_or_create_file fl disk).0 (lines_in disk.file) ≡ lines_in disk.file)
unfolding get_or_create_file lines_of_opened
get_or_create_file-keeps fl disk = ground arith

write_open-append :
    (fl : Faults) (d : ReportData) (disk : Disk) (r : Result String (List String × Bool))
    (old : List String)
    → lines_in disk.file ≡ old
    → lines_of_opened r old ≡ old
    → take (length old) (lines_in (write_open fl d disk r).1.file) ≡ old
unfolding write_open lines_of_opened
write_open-append fl d disk (err e) old h k = ap (take (length old)) h ∙ take-length old
write_open-append fl d disk (ok (lines, created)) old h k =
    subst
      (λ l.
        take (length l) (
          lines_in
            (write_rows fl d lines created disk (read_csv fl.read lines new_set d.prefix)).1.file)
        ≡ l)
      k (write_rows-append fl d lines created disk _ (h ∙ sym k))

-- Whatever fails, the lines that a report file had are the first lines that it has afterwards.
pub write_report-append :
    (fl : Faults) (d : ReportData) (disk : Disk)
    → take (length (lines_in disk.file)) (lines_in (write_report fl d disk).1.file)
      ≡ lines_in disk.file
unfolding write_report
write_report-append fl d disk =
    let (kept, opened) = get_or_create_file-keeps fl disk in
    write_open-append fl d (get_or_create_file fl disk).1 (get_or_create_file fl disk).0 _ kept
      opened
