-- ===== src/Collector/Report.antt =====
-- internal/collector/report.go: a report file grows by the rows that it does not hold yet.
pub mod Append
pub mod Covered
pub mod Rewrite
use Prim.Native.String.{len}
use koku_metrics_operator.Base.{
  ℕ, ◌+◌, String, ◌<>◌, starts_with, Bool, true, false, Option, none, some, List, [], ◌∷◌, ◌++◌,
  map, take, drop, leb, Result, ok, err, if◌then◌else◌,
}
use koku_metrics_operator.Base.Csv.{write_record, lines_of}
use koku_metrics_operator.Strset
use koku_metrics_operator.Strset.{Set}
use koku_metrics_operator.Collector.Rows.{CsvStruct, csv_row, row_string}

-- The directory and the file of a report; the file is its lines.
pub record Disk : Type 0 where
  pub dir_exists : Bool
  pub file : Option (List String)

-- The calls of the file system that fail, and with which error. A write may have put out some
-- lines before it fails; that it may also leave a part of the next line is left out.
pub record Faults : Type 0 where
  pub mkdir : Option String
  pub stat : Option String
  pub create : Option String
  pub open_file : Option String
  pub read : Option String
  pub write : Option (ℕ × String)
  pub stat_size : Option String
  pub sync : Option String

abbrev pub no_faults : Faults
no_faults = record {
  mkdir = none;
  stat = none;
  create = none;
  open_file = none;
  read = none;
  write = none;
  stat_size = none;
  sync = none;
}

-- `data`: the rows in the order in which the map yields them
pub record ReportData : Type 0 where
  pub query_data : List CsvStruct
  pub headers : List String
  pub prefix : String

abbrev failing {ℓ} : {A : Type ℓ} → Option String → A → Result String A
failing none a = ok a
failing (some e) a = err e

-- bufio.Scanner gives up at a line that, with its line feed, does not fit into 64 KiB; `len` counts
-- the bytes of a text.
abbrev pub scan_limit : ℕ
scan_limit = 65535

unfoldable pub scan_error : List String → Option String
scan_error [] = none
scan_error (l ∷ ls) =
    let rest = scan_error ls in
    if leb (len l) scan_limit then rest else some "bufio.Scanner: token too long"

-- The lines that the scanner yields before it gives up.
scanned : List String → List String
scanned [] = []
scanned (l ∷ ls) = let rest = scanned ls in if leb (len l) scan_limit then l ∷ rest else []

pub add_lines : Set → String → List String → Set
add_lines s prefix [] = s
add_lines s prefix (l ∷ ls) =
    add_lines (if starts_with l prefix then Strset.add s l else s) prefix ls

-- readCSV: the first line is the header and is skipped.
unfoldable pub read_csv : Option String → List String → Set → String → Result String Set
unfolding add_lines scanned scan_error
read_csv (some e) lines s prefix = err e
read_csv none lines s prefix = elim (scan_error lines) [
  | some e ↦ err e
  | none ↦ ok (add_lines s prefix (drop 1 (scanned lines)))
]

pub row_lines : Set → List CsvStruct → List String
row_lines s [] = []
row_lines s (r ∷ rest) =
    (if Strset.contains s (row_string r) then [] else lines_of (write_record (csv_row r)))
    ++ row_lines s rest

-- What writeToFile hands to the file.
unfoldable pub output : ReportData → Set → Bool → List String
unfolding row_lines
output d s created =
    (if created then lines_of (write_record d.headers) else []) ++ row_lines s d.query_data

put_lines : Option (ℕ × String) → List String → List String → Result String (Unit {0}) × List String
put_lines none lines out = (ok tt, lines ++ out)
put_lines (some (n, e)) lines out = (err e, lines ++ take n out)

unfoldable pub write_to_file :
    Faults → ReportData → Set → Bool → List String → Result String (Unit {0}) × List String
unfolding output put_lines
write_to_file fl d s created lines = put_lines fl.write lines (output d s created)

-- getOrCreateFile: the file's lines, and whether it was created.
unfoldable pub get_or_create_file : Faults → Disk → Result String (List String × Bool) × Disk
get_or_create_file fl disk =
    elim (if disk.dir_exists then ok tt else failing {A = Unit {0}} fl.mkdir tt) [
      | err e ↦ (err e, disk)
      | ok _ ↦ elim fl.stat [
        | some e ↦ (err e, record disk { dir_exists = true })
        | none ↦ elim disk.file [
          | none ↦ elim fl.create [
            | some e ↦ (err e, record disk { dir_exists = true })
            | none ↦ (ok ([], true), record { dir_exists = true; file = some [] })
          ]
          | some lines ↦ elim fl.open_file [
            | some e ↦ (err e, record disk { dir_exists = true })
            | none ↦ (ok (lines, false), record disk { dir_exists = true })
          ]
        ]
      ]
    ]

-- The bytes of a file: each line and its line feed.
file_size : List String → ℕ
file_size [] = 0
file_size (l ∷ ls) = len l + 1 + file_size ls

-- The steps of writeReport behind writeToFile; its result is the size that it keeps.
finish : Faults → Disk → Result String (Unit {0}) → List String → Result String ℕ × Disk
unfolding file_size
finish fl disk (err e) lines =
    (err ("writeReport: failed to write to file: " <> e), record disk { file = some lines })
finish fl disk (ok _) lines = elim fl.stat_size [
  | some e ↦
      (err ("writeReport: failed to get file size: " <> e), record disk { file = some lines })
  | none ↦ (failing fl.sync (file_size lines), record disk { file = some lines })
]

-- The steps behind readCSV.
write_rows :
    Faults → ReportData → List String → Bool → Disk → Result String Set → Result String ℕ × Disk
unfolding finish
write_rows fl d lines created disk (err e) = (err ("writeReport: failed to read csv: " <> e), disk)
write_rows fl d lines created disk (ok s) =
    let (written, lines') = write_to_file fl d s created lines in finish fl disk written lines'

-- The steps behind getOrCreateFile.
write_open :
    Faults → ReportData → Disk → Result String (List String × Bool) → Result String ℕ × Disk
unfolding write_rows
write_open fl d disk (err e) = (err ("writeReport: failed to get or create csv: " <> e), disk)
write_open fl d disk (ok (lines, created)) =
    write_rows fl d lines created disk (read_csv fl.read lines Strset.new_set d.prefix)

unfoldable pub write_report : Faults → ReportData → Disk → Result String ℕ × Disk
unfolding write_open get_or_create_file read_csv write_to_file
write_report fl d disk =
    let (opened, disk') = get_or_create_file fl disk in write_open fl d disk' opened
