-- ===== src/Packaging/Split/Whole.antt =====
-- If nothing fails and the file is not too large, splitting ends with every row in a part.
use koku_metrics_operator.Base.{
  ℕ, zero, suc, ◌+◌, ◌*◌, ◌≤◌, ◌<◌, ◌^◌, ◌≡◌, refl, ◌∙◌, sym, ap, subst, String, true, false, none,
  List, [], ◌∷◌, ◌++◌, All, ok, Bool-cases, inl, inr, leb, leb→le, leb→lt, arith, Ensures-ok,
}
use koku_metrics_operator.Base.Int64.{add64, leb64, add64-eq-add, leb64-eq-leb}
use koku_metrics_operator.Packaging.Split.{
  Row, Reader, eof, broken, row, Part, SplitEnv, Chunk, cons_row, row_size, write_rows, part_name,
  part_of, flushed, write_part, split_loop,
}
use koku_metrics_operator.Packaging.Split.Conserve.{rows_in, rows_of, IsCut, write_part-IsCut}

-- No call fails.
pub record Works (env : SplitEnv) : Type 0 where
  pub create : (name : String) → env.create_error name ≡ none
  pub write : (name : String) (r : Row) → env.write_error name r ≡ none
  pub flush : (name : String) → env.flush_error name ≡ none
  pub stat : (name : String) → env.stat_error name ≡ none

-- The reader ends with io.EOF.
abbrev pub IsWhole : Reader → Type 0
IsWhole eof = Unit
IsWhole (broken e) = ⊥
IsWhole (row r rest) = IsWhole rest

module _ (env : SplitEnv) (max_bytes : ℕ) where
  -- The estimate that `writePart` makes of these rows.
  abbrev pub estimate : List Row → ℕ
  estimate [] = 0
  estimate (r ∷ rs) = row_size env max_bytes r + estimate rs

  estimate-append : (rs ts : List Row) → estimate (rs ++ ts) ≡ estimate rs + estimate ts
  estimate-append [] ts = omega arith
  estimate-append (r ∷ rs) ts = omega (arith, estimate-append rs ts)

  abbrev pub RowsBelow : ℕ → List Row → Type 0
  RowsBelow limit = All (λ r. row_size env max_bytes r < limit)

  RowsBelow-right : (limit : ℕ) (rs ts : List Row) → RowsBelow limit (rs ++ ts) → RowsBelow limit ts
  RowsBelow-right limit [] ts h = h
  RowsBelow-right limit (r ∷ rs) ts h = RowsBelow-right limit rs ts h.1

  -- A part that does not end the file has reached the limit, by less than one row.
  record IsFilled (limit start : ℕ) (c : Chunk) : Type 0 where
    full : c.at_end ≡ false → max_bytes ≤ start + estimate c.rows
    within : start + estimate c.rows < max_bytes + limit
    whole : IsWhole c.rest

  module _ (works : Works env) (limit : ℕ) (small : max_bytes ≤ 2 ^ 62)
      (fits : limit ≤ 2 ^ 62) where
    write_rows-fills :
        (name : String) (start : ℕ) (reader : Reader)
        → start < max_bytes
        → IsWhole reader
        → RowsBelow limit (rows_in reader)
        → (c : Chunk) × (write_rows env max_bytes name start reader ≡ ok c) × IsFilled limit start c
    unfolding write_rows
    write_rows-fills name start eof below whole rows = (
      record { rows = []; at_end = true; rest = eof },
      refl,
      record { full = λ e. cc; within = omega arith; whole = tt },
    )
    write_rows-fills name start (broken e) below whole rows = absurd whole
    write_rows-fills name start (row r rest) below whole rows =
        let size = row_size env max_bytes r in
        let sum : add64 start size ≡ start + size = add64-eq-add start size (omega arith) in
        let test : leb64 max_bytes (start + size) ≡ leb max_bytes (start + size) =
          leb64-eq-leb max_bytes (start + size) (omega arith) (omega arith) in
        elim (Bool-cases (leb max_bytes (start + size))) [
          | inl e ↦ (
            record { rows = r ∷ []; at_end = false; rest = rest },
            rw (works.write name r, sum, test, e),
            record {
              full = λ _. omega (arith, leb→le max_bytes (start + size) e);
              within = omega arith;
              whole = whole;
            },
          )
          | inr e ↦
              let (c, eq, h) =
                write_rows-fills name (start + size) rest (leb→lt max_bytes (start + size) e) whole
                  rows.1 in
              (
                cons_row r c,
                rw (works.write name r, sum, test, e, eq),
                record {
                  full = λ k. omega (arith, h.full k);
                  within = omega (arith, h.within);
                  whole = h.whole;
                },
              )
        ]

    write_part-fills :
        (file : String) (reader : Reader) (header : Row) (num : ℕ)
        → 0 < max_bytes
        → IsWhole reader
        → RowsBelow limit (rows_in reader)
        → (c : Chunk) × (write_part env max_bytes file reader header num ≡ ok c)
          × IsFilled limit 0 c
    unfolding write_part
    write_part-fills file reader header num positive whole rows =
        let (c, eq, h) = write_rows-fills (part_name file num) 0 reader positive whole rows in
        (c, rw (works.create (part_name file num), works.write (part_name file num) header) eq, h)

    -- A part stays below the limit up to its last row.
    abbrev pub IsWithin : Part → Type 0
    IsWithin p = estimate p.rows < max_bytes + limit

    part_of-rows :
        (file : String) (num : ℕ) (taken : List Row)
        → (part_of env.flush_error file num taken).rows ≡ taken
    unfolding flushed
    part_of-rows file num taken = rw (works.flush (part_name file num)) refl

    split_loop_whole :
        (rounds num : ℕ) (file : String) (header : Row) (reader : Reader)
        → 0 < max_bytes
        → IsWhole reader
        → RowsBelow limit (rows_in reader)
        → estimate (rows_in reader) < rounds * max_bytes
        → (parts : List Part) × (split_loop env max_bytes rounds num file header reader
            ≡ ok (parts, eof))
          × (rows_of parts ≡ rows_in reader)
          × All IsWithin parts
    unfolding split_loop
    split_loop_whole zero num file header reader positive whole rows room = absurd (omega arith)
    split_loop_whole (suc rounds) num file header reader positive whole rows room =
        let (c, eq, h) = write_part-fills file reader header num positive whole rows in
        let cut : IsCut reader c =
          Ensures-ok _ c (write_part-IsCut env max_bytes file reader header num) eq in
        let full = part_of-rows file num c.rows in
        let inside : IsWithin (part_of env.flush_error file num c.rows) =
          subst (λ l. estimate l < max_bytes + limit) (sym full) (omega (arith, h.within)) in
        elim (Bool-cases c.at_end) [
          | inl e ↦ (
            part_of env.flush_error file num c.rows ∷ [],
            rw (eq, works.stat (part_name file num), e, cut.ended e),
            ap (λ l. l ++ []) full
                ∙ ap (λ r. c.rows ++ rows_in r) (sym (cut.ended e))
                ∙ cut.conserved,
            (inside, tt),
          )
          | inr e ↦
              let left : estimate c.rows + estimate (rows_in c.rest) ≡ estimate (rows_in reader) =
                sym (estimate-append c.rows (rows_in c.rest)) ∙ ap estimate cut.conserved in
              let (parts, eq', same, within) =
                split_loop_whole rounds (suc num) file header c.rest positive h.whole
                  (RowsBelow-right limit c.rows (rows_in c.rest)
                    (subst (RowsBelow limit) (sym cut.conserved) rows))
                  (omega (arith, h.full e, left)) in
              (
                part_of env.flush_error file num c.rows ∷ parts,
                rw (eq, works.stat (part_name file num), e, eq'),
                ap (λ l. l ++ rows_of parts) full ∙ ap (λ l. c.rows ++ l) same ∙ cut.conserved,
                (inside, within),
              )
        ]

-- Let no call fail, no Flush either, the file end without an error, the limit be positive, neither the limit nor a
-- row exceed 2 ^ 62, and the estimates of all rows stay below 999 times the limit. Then splitting
-- succeeds, the rows of the parts are the rows of the file in their order, and each part exceeds
-- the limit by less than the largest row.
pub split_loop-whole :
    (env : SplitEnv) (max_bytes limit : ℕ) (file : String) (header : Row) (reader : Reader)
    → Works env
    → 0 < max_bytes
    → max_bytes ≤ 2 ^ 62
    → limit ≤ 2 ^ 62
    → IsWhole reader
    → RowsBelow env max_bytes limit (rows_in reader)
    → estimate env max_bytes (rows_in reader) < 999 * max_bytes
    → (parts : List Part) × (split_loop env max_bytes 999 1 file header reader ≡ ok (parts, eof))
      × (rows_of parts ≡ rows_in reader)
      × All (λ p. estimate env max_bytes p.rows < max_bytes + limit) parts
split_loop-whole env max_bytes limit file header reader works positive small fits whole rows room =
    split_loop_whole env max_bytes works limit small fits 999 1 file header reader positive whole
      rows room
