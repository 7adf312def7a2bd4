-- ===== src/Collector/Generate/Quarters.antt =====
-- The range that GenerateReports leaves.
use koku_metrics_operator.Base.{
  ℕ, zero, suc, ◌+◌, ◌*◌, ◌≤◌, ◌<◌, ◌≡◌, ◌≢◌, refl, String, Option, none, some, Result, ok, err,
  Bool-cases, ◌⊎◌, inl, inr, arith,
}
use koku_metrics_operator.Base.Time.{Time, second, minute}
use koku_metrics_operator.Collector.Rows.Dates.{Range}
use koku_metrics_operator.Collector.Generate.{
  Generated, reports_written, no_data, ros_no_enabled_namespaces, failure, Stages, Ran, is_enabled,
  stop_or, quarters, optimize, after_cost, after_rows, after_nodes, generate_reports,
}

-- The range is one of the four quarters of the hour from a start, each begun a second late.
pub IsQuarter : Time → Range → Type 0
IsQuarter start range =
    (i : ℕ) × ((i < 4)
      × ((range.start ≡ start + second + i * (15 * minute))
          × (range.end ≡ range.start + (14 * minute + 59 * second))))

module _ {W : Type 0} (stages : Stages W) where
  stop_or-IsQuarter :
      (hour : Time) (e : Generated) (range : Range) (w : W) (rest : Ran W)
      → IsQuarter hour range
      → IsQuarter hour rest.range
      → IsQuarter hour (stop_or stages e range w rest).range
  unfolding stop_or
  stop_or-IsQuarter hour (failure e) range w rest h k = h
  stop_or-IsQuarter hour no_data range w rest h k = h
  stop_or-IsQuarter hour reports_written range w rest h k = k
  stop_or-IsQuarter hour ros_no_enabled_namespaces range w rest h k = k

  quarters-IsQuarter :
      (n k : ℕ) (hour start end : Time) (e : Generated) (range : Range) (w : W)
      → n + k ≤ 4
      → start ≡ hour + second + k * (15 * minute)
      → end ≡ start + (14 * minute + 59 * second)
      → IsQuarter hour range ⊎ (n ≢ 0)
      → IsQuarter hour (quarters stages n start end e range w).range
  unfolding quarters IsQuarter
  quarters-IsQuarter zero k hour start end e range w fuel s t (inl h) = h
  quarters-IsQuarter zero k hour start end e range w fuel s t (inr h) = absurd (h refl)
  quarters-IsQuarter (suc n) k hour start end e range w fuel s t h =
      let range' = record range { start = start; end = end } in
      let r = stages.resource_optimization range' w in
      let this : IsQuarter hour range' = (k, (omega arith, (s, t))) in
      let ih =
        quarters-IsQuarter n (suc k) hour (start + 15 * minute) (end + 15 * minute) r.0 range' r.1
          (omega arith) (omega arith) (omega arith) (inl this) in
      stop_or-IsQuarter hour r.0 range' r.1
        (quarters stages n (start + 15 * minute) (end + 15 * minute) r.0 range' r.1) this ih

  -- A range and what is left of it.
  LeavesOrQuarter : Range → Range → Type 0
  LeavesOrQuarter range left = (left ≡ range) ⊎ IsQuarter range.start left

  optimize-leaves : (range : Range) (w : W) → LeavesOrQuarter range (optimize stages range w).range
  unfolding optimize LeavesOrQuarter
  optimize-leaves range w = elim (Bool-cases (is_enabled stages.disable_resource_optimization)) [
    | inr e ↦ rw e (inl refl)
    | inl e ↦
        let start = range.start + second in
        let left =
          quarters-IsQuarter 4 0 range.start start (start + (14 * minute + 59 * second))
            reports_written range w (omega arith) (omega arith) refl
            (inr (λ h. absurd (omega (arith, h)))) in
        rw e (inr left)
  ]

  after_cost-leaves :
      (range : Range) (r : Option String × W)
      → LeavesOrQuarter range (after_cost stages range r).range
  unfolding after_cost LeavesOrQuarter
  after_cost-leaves range (some e, w) = inl refl
  after_cost-leaves range (none, w) = optimize-leaves range w

  after_rows-leaves :
      (range : Range) (r : Option String × W)
      → LeavesOrQuarter range (after_rows stages range r).range
  unfolding after_rows LeavesOrQuarter
  after_rows-leaves range (some e, w) = inl refl
  after_rows-leaves range (none, w) = after_cost-leaves range _

  after_nodes-leaves :
      (range : Range) (r : Result String ℕ × W)
      → LeavesOrQuarter range (after_nodes stages range r).range
  unfolding after_nodes LeavesOrQuarter
  after_nodes-leaves range (err e, w) = inl refl
  after_nodes-leaves range (ok zero, w) = inl refl
  after_nodes-leaves range (ok (suc n), w) = after_rows-leaves range (stages.node_rows range w)

  -- GenerateReports leaves the range that it is given, or it leaves in its place one of the quarters
  -- of the hour from its start.
  pub generate_reports-range :
      (range : Range) (w : W)
      → ((generate_reports stages range w).range ≡ range)
        ⊎ IsQuarter range.start (generate_reports stages range w).range
  unfolding generate_reports LeavesOrQuarter
  generate_reports-range range w = after_nodes-leaves range (stages.node_results range w)
