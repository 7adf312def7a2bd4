-- ===== src/Packaging/Interval.antt =====
-- getIndex, getLastRow and getStartEnd of internal/packaging/packaging.go: the interval that a
-- report covers is read from its first and last rows.
pub mod Columns
use koku_metrics_operator.Base.{
  ℕ, suc, String, str_eq, Bool, true, false, Option, none, some, List, [], ◌∷◌, get_elem?, Result,
  ok, err, ◌>>=◌, if◌then◌else◌,
}
use koku_metrics_operator.Packaging.Split.{Row, Reader, eof, broken, row}

index_from : ℕ → List String → String → Result String ℕ
index_from i [] val = err "could not index the interval time"
index_from i (value ∷ rest) val = if str_eq value val then ok i else index_from (suc i) rest val

-- getIndex
unfoldable pub get_index : List String → String → Result String ℕ
unfolding index_from
get_index array val = index_from 0 array val

-- getLastRow
unfoldable pub get_last_row : Reader → Row → Result String Row
get_last_row eof last_row = ok last_row
get_last_row (broken e) last_row = err e
get_last_row (row record_row rest) last_row = get_last_row rest record_row

-- csvReader.Read()
unfoldable pub read_row : Reader → Result String (Row × Reader)
read_row eof = err "EOF"
read_row (broken e) = err e
read_row (row r rest) = ok (r, rest)

-- `line[index]`: the reader gives rows as long as the first one, so the index is in range; an
-- index out of range is a panic.
unfoldable pub field_at : Row → ℕ → Result String String
field_at r i = elim (get_elem? r i) [ none ↦ err "index out of range" | some f ↦ ok f ]

-- The texts of the start and the end of the interval.
pub record Interval : Type 0 where
  pub start : String
  pub end : String

-- getStartEnd, before the two texts are parsed as times.
unfoldable pub get_start_end : Result String Reader → Result String Interval
unfolding get_index get_last_row read_row field_at
get_start_end opened = do
  csv_reader ← opened
  (csv_header, reader₁) ← read_row csv_reader
  start_index ← get_index csv_header "interval_start"
  end_index ← get_index csv_header "interval_end"
  (first_line, reader₂) ← read_row reader₁
  start ← field_at first_line start_index
  last_line ← get_last_row reader₂ first_line
  end ← field_at last_line end_index
  ok (record { start = start; end = end })
