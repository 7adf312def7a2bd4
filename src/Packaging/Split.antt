-- ===== src/Packaging/Split.antt =====
-- needSplit, writePart and splitFiles of internal/packaging/packaging.go. A file is known by its name
-- in the staging directory.
pub mod Need
pub mod Conserve
pub mod Whole
use Prim.Native.String.{len}
use koku_metrics_operator.Base.{
  ℕ, zero, suc, ◌+◌, String, ◌<>◌, Bool, true, false, ◌||◌, Option, none, some, List, [], ◌∷◌, ◌++◌,
  take, Result, ok, err, ◌>>=◌, ◌>>◌, if◌then◌else◌,
}
use koku_metrics_operator.Base.Text.{join, trim_suffix}
use koku_metrics_operator.Base.Decimal.{itoa}
use koku_metrics_operator.Base.Int64.{add64, leb64}

-- What os.FileInfo tells of a file.
pub record FileInfo : Type 0 where
  pub name : String
  pub size : ℕ

abbrev pub Row : Type 0
Row = List String

-- What a csv.Reader has still to give: rows, then io.EOF or another error.
pub data Reader : Type 0 where
  eof : Reader
  broken : String → Reader
  row : Row → Reader → Reader

-- A file that writePart wrote: its name, the rows that were read for it, and those of them that
-- stand in it below the header.
pub record Part : Type 0 where
  pub name : String
  pub taken : List Row
  pub rows : List Row

-- The environment: which calls fail, how large a written part is, and
-- `int(float64(rowLen)*variance)`, the share of a row that covers its quoting. A Flush whose error
-- writePart does not look at is `some` number of rows that stand in the file nevertheless.
pub record SplitEnv : Type 0 where
  pub open_csv : String → Result String Reader
  pub create_error : String → Option String
  pub write_error : String → Row → Option String
  pub flush_error : String → Option ℕ
  pub stat_error : String → Option String
  pub size_of : Row → List Row → ℕ
  pub overhead : ℕ → ℕ

abbrev pub max_splits : ℕ
max_splits = 1000

need_split_from : ℕ → ℕ → List FileInfo → Bool
need_split_from max_bytes total [] = false
need_split_from max_bytes total (f ∷ fs) =
    if leb64 max_bytes f.size || leb64 max_bytes (add64 total f.size)
    then true
    else need_split_from max_bytes (add64 total f.size) fs

-- needSplit: a file, or the files so far, reach the limit.
unfoldable pub need_split : ℕ → List FileInfo → Bool
unfolding need_split_from add64 leb64
need_split max_bytes files = need_split_from max_bytes 0 files

abbrev pub check : Option String → Result String (Unit {0})
check none = ok tt
check (some e) = err e

-- What a part leaves: the rows, whether the reader is at its end, and the reader.
pub record Chunk : Type 0 where
  pub rows : List Row
  pub at_end : Bool
  pub rest : Reader

abbrev cons_row : Row → Chunk → Chunk
cons_row r c = record c { rows = r ∷ c.rows }

-- The rows that stand in a file after its Flush.
unfoldable pub flushed : Option ℕ → List Row → List Row
flushed none rows = rows
flushed (some n) rows = take n rows

-- The name of a part: the number stands in front of the extension.
abbrev pub part_name : String → ℕ → String
part_name file num = trim_suffix file ".csv" <> (itoa num <> ".csv")

abbrev pub part_of : (String → Option ℕ) → String → ℕ → List Row → Part
part_of flush_error file num taken = record {
  name = part_name file num;
  taken = taken;
  rows = flushed (flush_error (part_name file num)) taken;
}

module _ (env : SplitEnv) (max_bytes : ℕ) where
  unfoldable pub row_size : Row → ℕ
  unfolding join
  row_size r = let row_len = len (join r ",") in row_len + env.overhead row_len

  -- The loop of writePart, from the size estimated so far.
  write_rows : String → ℕ → Reader → Result String Chunk
  write_rows name estimate eof = ok (record { rows = []; at_end = true; rest = eof })
  write_rows name estimate (broken e) = err e
  write_rows name estimate (row r rest) =
      let estimate' = add64 estimate (row_size r) in
      let more = write_rows name estimate' rest in
      do
        check (env.write_error name r)
        if leb64 max_bytes estimate'
            then ok (record { rows = r ∷ []; at_end = false; rest = rest })
            else do c ← more; ok (cons_row r c)

  unfoldable pub write_part : String → Reader → Row → ℕ → Result String Chunk
  unfolding write_rows row_size add64 leb64
  write_part file reader header num = do
    check (env.create_error (part_name file num))
    check (env.write_error (part_name file num) header)
    write_rows (part_name file num) 0 reader

  -- The loop over the parts of one file, for the rounds that are left below `max_splits`; it
  -- gives the parts and the reader where it stopped.
  unfoldable pub split_loop : ℕ → ℕ → String → Row → Reader → Result String (List Part × Reader)
  unfolding write_part flushed
  split_loop zero num file header reader = ok ([], reader)
  split_loop (suc rounds) num file header reader = do
    c ← write_part file reader header num
    check (env.stat_error (part_name file num))
    let p : Part = part_of env.flush_error file num c.rows
    elim c.at_end [
      | true ↦ ok (p ∷ [], c.rest)
      | false ↦ do (ps, rest) ← split_loop rounds (suc num) file header c.rest; ok (p ∷ ps, rest)
    ]

  abbrev part_info : Row → Part → FileInfo
  part_info header p = record { name = p.name; size = env.size_of header p.rows }

  part_infos : Row → List Part → List FileInfo
  part_infos header [] = []
  part_infos header (p ∷ ps) = part_info header p ∷ part_infos header ps

  split_opened : String → Reader → Result String (List FileInfo)
  split_opened file eof = err "splitFiles: error reading file: EOF"
  split_opened file (broken e) = err e
  split_opened file (row header reader) = do
    (ps, rest) ← split_loop 999 1 file header reader
    ok (part_infos header ps)

  split_each : List FileInfo → Result String (List FileInfo)
  split_each [] = ok []
  split_each (f ∷ fs) =
      let others = split_each fs in
      if leb64 max_bytes f.size
      then (do
        reader ← env.open_csv f.name
        infos ← split_opened f.name reader
        more ← others
        ok (infos ++ more))
      else (do more ← others; ok (f ∷ more))

  -- splitFiles: the files to package, and whether they were split.
  unfoldable pub split_files : List FileInfo → Result String (List FileInfo × Bool)
  unfolding need_split split_each split_opened split_loop part_infos write_part
  split_files files =
      if need_split max_bytes files
      then (do fs ← split_each files; ok (fs, true))
      else ok (files, false)
