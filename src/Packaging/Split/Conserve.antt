-- ===== src/Packaging/Split/Conserve.antt =====
-- What splitting does with the rows of a file.
use mathlib.Core.List.{append-nil, append_assoc}
use koku_metrics_operator.Base.{
  ℕ, zero, suc, ltb, ◌≤◌, ◌<◌, ◌≡◌, ◌⊎◌, refl, ◌∙◌, ap, String, true, Option, none, some, take, All,
  List, [], ◌∷◌, ◌++◌, map, flatten, length, ok, Ensures, returns, fails, Ensures-ok, Ensures-bind,
  Ensures-then, Bool-cases, inl, inr, arith,
}
use koku_metrics_operator.Base.Int64.{add64, leb64}
use koku_metrics_operator.Packaging.Split.{
  Row, Reader, eof, broken, row, Part, SplitEnv, Chunk, check, row_size, write_rows, part_name,
  part_of, flushed, write_part, split_loop,
}

abbrev pub rows_in : Reader → List Row
rows_in eof = []
rows_in (broken e) = []
rows_in (row r rest) = r ∷ rows_in rest

abbrev pub rows_of : List Part → List Row
rows_of ps = flatten (map (λ p. p.rows) ps)

-- The rows that were read for the parts.
abbrev pub taken_of : List Part → List Row
taken_of ps = flatten (map (λ p. p.taken) ps)

-- All rows that were read for a part stand in it, or its Flush failed and the first of them do.
pub data IsStored (flush_error : String → Option ℕ) (p : Part) : Type 0 where
  stored : p.rows ≡ p.taken → IsStored flush_error p
  cut_off : (n : ℕ) → flush_error p.name ≡ some n → p.rows ≡ take n p.taken → IsStored flush_error p

part_of-IsStored :
    (flush_error : String → Option ℕ) (file : String) (num : ℕ) (rows : List Row)
    → IsStored flush_error (part_of flush_error file num rows)
unfolding flushed
part_of-IsStored flush_error file num rows = with_flush (flush_error (part_name file num)) refl
  where
    with_flush :
        (o : Option ℕ)
        → flush_error (part_name file num) ≡ o
        → IsStored flush_error (part_of flush_error file num rows)
    with_flush none e = stored (rw e refl)
    with_flush (some n) e = cut_off n e (rw e refl)

-- A part and what follows it are the rows that were there, and at the end nothing follows.
pub record IsCut (reader : Reader) (c : Chunk) : Type 0 where
  pub conserved : c.rows ++ rows_in c.rest ≡ rows_in reader
  pub ended : c.at_end ≡ true → c.rest ≡ eof

-- What was read for the parts and what is left are the rows of the file in their order, and the parts
-- are stored; there is no more than one part for each round, and with fewer nothing is left.
pub record IsSplit (flush_error : String → Option ℕ) (rounds : ℕ) (reader : Reader)
    (out : List Part × Reader) : Type 0 where
  pub conserved : taken_of out.0 ++ rows_in out.1 ≡ rows_in reader
  pub all_stored : All (IsStored flush_error) out.0
  pub bounded : length out.0 ≤ rounds
  pub ended : length out.0 < rounds → out.1 ≡ eof

IsSplit-last :
    (flush_error : String → Option ℕ) (rounds : ℕ) (file : String) (num : ℕ) (reader : Reader)
    (c : Chunk)
    → IsCut reader c
    → c.at_end ≡ true
    → IsSplit flush_error (suc rounds) reader (part_of flush_error file num c.rows ∷ [], c.rest)
IsSplit-last flush_error rounds file num reader c cut e = record {
  conserved = ap (λ l. l ++ rows_in c.rest) (append-nil c.rows) ∙ cut.conserved;
  all_stored = (part_of-IsStored flush_error file num c.rows, tt);
  bounded = omega arith;
  ended = λ _. cut.ended e;
}

IsSplit-cons :
    (flush_error : String → Option ℕ) (rounds : ℕ) (file : String) (num : ℕ) (reader : Reader)
    (c : Chunk) (out : List Part × Reader)
    → IsCut reader c
    → IsSplit flush_error rounds c.rest out
    → IsSplit flush_error (suc rounds) reader (part_of flush_error file num c.rows ∷ out.0, out.1)
IsSplit-cons flush_error rounds file num reader c out cut h = record {
  conserved =
      append_assoc c.rows (taken_of out.0) (rows_in out.1)
      ∙ ap (λ l. c.rows ++ l) h.conserved
      ∙ cut.conserved;
  all_stored = (part_of-IsStored flush_error file num c.rows, h.all_stored);
  bounded = omega (arith, h.bounded);
  ended = λ k. h.ended (omega arith);
}

module _ (env : SplitEnv) (max_bytes : ℕ) where
  write_rows-IsCut :
      (name : String) (estimate : ℕ) (reader : Reader)
      → Ensures (IsCut reader) (write_rows env max_bytes name estimate reader)
  unfolding write_rows
  write_rows-IsCut name estimate eof = returns (record { conserved = refl; ended = λ _. refl })
  write_rows-IsCut name estimate (broken e) = fails
  write_rows-IsCut name estimate (row r rest) =
      let ih = write_rows-IsCut name (add64 estimate (row_size env max_bytes r)) rest in
      Ensures-then (check (env.write_error name r)) _
        (elim (Bool-cases (leb64 max_bytes (add64 estimate (row_size env max_bytes r)))) [
          | inl full ↦ rw full (returns (record { conserved = refl; ended = λ e. cc }))
          | inr more ↦ rw more (
              Ensures-bind _ _ ih λ c h.
                returns (record { conserved = ap (λ l. r ∷ l) h.conserved; ended = h.ended }))
        ])

  pub write_part-IsCut :
      (file : String) (reader : Reader) (header : Row) (num : ℕ)
      → Ensures (IsCut reader) (write_part env max_bytes file reader header num)
  unfolding write_part
  write_part-IsCut file reader header num =
      Ensures-then _ _ (Ensures-then _ _ (write_rows-IsCut (part_name file num) 0 reader))

  split_loop-Ensures :
      (rounds num : ℕ) (file : String) (header : Row) (reader : Reader)
      → Ensures
          (IsSplit env.flush_error rounds reader)
          (split_loop env max_bytes rounds num file header reader)
  unfolding split_loop
  split_loop-Ensures zero num file header reader = returns (record {
    conserved = refl;
    all_stored = tt;
    bounded = omega arith;
    ended = λ h. absurd (omega arith);
  })
  split_loop-Ensures (suc rounds) num file header reader =
      let ih = λ (next : Reader). split_loop-Ensures rounds (suc num) file header next in
      Ensures-bind _ _ (write_part-IsCut file reader header num) λ c cut.
        Ensures-then (check (env.stat_error (part_name file num))) _ (elim (Bool-cases c.at_end) [
          | inl e ↦ rw e (returns (IsSplit-last env.flush_error rounds file num reader c cut e))
          | inr e ↦ rw e (
              Ensures-bind _ _ (ih c.rest)
                λ out h. returns (IsSplit-cons env.flush_error rounds file num reader c out cut h))
        ])

  -- Whenever a file is split without an error, the rows that were read for its parts, in their order,
  -- followed by the rows that were not read any more are the rows of the file. All rows that were read
  -- for a part stand in it, unless its Flush failed, whose error is not looked at: then the first of
  -- them do. There are at most 999 parts, and either the end of the file was reached or there are 999
  -- parts.
  pub split_loop-IsSplit :
      (file : String) (header : Row) (reader : Reader) (parts : List Part) (rest : Reader)
      → split_loop env max_bytes 999 1 file header reader ≡ ok (parts, rest)
      → (taken_of parts ++ rows_in rest ≡ rows_in reader)
        × All (IsStored env.flush_error) parts
        × (length parts ≤ 999)
        × ((rest ≡ eof) ⊎ (length parts ≡ 999))
  split_loop-IsSplit file header reader parts rest e =
      let h = Ensures-ok _ (parts, rest) (split_loop-Ensures 999 1 file header reader) e in
      let last : (rest ≡ eof) ⊎ (length parts ≡ 999) = elim (Bool-cases (ltb (length parts) 999)) [
        | inl l ↦ inl (h.ended (ground arith))
        | inr l ↦ inr (ground (arith, h.bounded))
      ] in
      (h.conserved, h.all_stored, h.bounded, last)
