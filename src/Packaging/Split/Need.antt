-- ===== src/Packaging/Split/Need.antt =====
-- When files are split.
use native.Mathlib.Nat.{zero-add}
use koku_metrics_operator.Base.{
  ℕ, ◌+◌, ◌≤◌, ◌<◌, ◌^◌, ◌≡◌, List, [], ◌∷◌, All, leb, leb→le, leb→lt, Bool-cases, inl, inr, arith,
}
use koku_metrics_operator.Base.Int64.{add64-eq-add, leb64-eq-leb}
use koku_metrics_operator.Packaging.Split.{FileInfo, need_split, need_split_from}

abbrev pub total_size : List FileInfo → ℕ
total_size [] = 0
total_size (f ∷ fs) = f.size + total_size fs

need_split_from-eq :
    (max_bytes total : ℕ) (files : List FileInfo)
    → total < max_bytes
    → max_bytes ≤ 2 ^ 62
    → All (λ f. f.size < 2 ^ 63) files
    → need_split_from max_bytes total files ≡ leb max_bytes (total + total_size files)
unfolding need_split_from
need_split_from-eq max_bytes total [] below small sizes = ground arith
need_split_from-eq max_bytes total (f ∷ fs) below small sizes =
    elim (Bool-cases (leb max_bytes f.size)) [
      | inl big ↦
          rw (leb64-eq-leb max_bytes f.size (omega arith) sizes.0, big)
            (ground (arith, leb→le max_bytes f.size))
      | inr little ↦
          let within : f.size < max_bytes = leb→lt max_bytes f.size little in
          rw
            (
              leb64-eq-leb max_bytes f.size (omega arith) sizes.0,
              little,
              add64-eq-add total f.size (omega arith),
              leb64-eq-leb max_bytes (total + f.size) (omega arith) (omega arith),
            )
            (ground (arith, need_split_from-eq max_bytes (total + f.size) fs, sizes.1))
    ]

-- Up to a limit of 2 ^ 62 bytes no sum overflows, and files are split exactly if together they
-- reach the limit.
pub need_split-iff_total :
    (max_bytes : ℕ) (files : List FileInfo)
    → 0 < max_bytes
    → max_bytes ≤ 2 ^ 62
    → All (λ f. f.size < 2 ^ 63) files
    → need_split max_bytes files ≡ leb max_bytes (total_size files)
unfolding need_split
need_split-iff_total max_bytes files positive small sizes =
    rw zero-add at (need_split_from-eq max_bytes 0 files positive small sizes)
