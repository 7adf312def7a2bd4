-- ===== src/Collector/Generate/Preserved.antt =====
-- What GenerateReports keeps, if its parts keep it.
use koku_metrics_operator.Base.{
  ℕ, zero, suc, ◌+◌, ◌*◌, String, Option, none, some, Result, ok, err, Bool-cases, inl, inr,
}
use koku_metrics_operator.Base.Time.{Time, minute}
use koku_metrics_operator.Collector.Rows.Dates.{Range}
use koku_metrics_operator.Collector.Generate.{
  Generated, reports_written, no_data, ros_no_enabled_namespaces, failure, Stages, Ran, is_enabled,
  stop_or, quarters, optimize, after_cost, after_rows, after_nodes, generate_reports,
}

-- A relation between worlds that holds between the worlds before and after each part.
pub record Preserves {W : Type 0} (stages : Stages W) (R : W → W → Type 0) : Type 0 where
  pub R_refl : (w : W) → R w w
  pub R_trans : (u v w : W) → R u v → R v w → R u w
  pub by_node_results : (range : Range) (w : W) → R w (stages.node_results range w).1
  pub by_node_rows : (range : Range) (w : W) → R w (stages.node_rows range w).1
  pub by_cost : (range : Range) (w : W) → R w (stages.cost_management range w).1
  pub by_optimization : (range : Range) (w : W) → R w (stages.resource_optimization range w).1

module _ {W : Type 0} (stages : Stages W) (R : W → W → Type 0) (h : Preserves stages R) where
  stop_or-R :
      (u : W) (e : Generated) (range : Range) (w : W) (rest : Ran W)
      → R u w
      → R w rest.world
      → R u (stop_or stages e range w rest).world
  unfolding stop_or
  stop_or-R u (failure e) range w rest p q = p
  stop_or-R u no_data range w rest p q = p
  stop_or-R u reports_written range w rest p q = h.R_trans u w rest.world p q
  stop_or-R u ros_no_enabled_namespaces range w rest p q = h.R_trans u w rest.world p q

  quarters-R :
      (n : ℕ) (start end : Time) (e : Generated) (range : Range) (w : W)
      → R w (quarters stages n start end e range w).world
  unfolding quarters
  quarters-R zero start end e range w = h.R_refl w
  quarters-R (suc n) start end e range w =
      let range' = record range { start = start; end = end } in
      let r = stages.resource_optimization range' w in
      stop_or-R w r.0 range' r.1
        (quarters stages n (start + 15 * minute) (end + 15 * minute) r.0 range' r.1)
        (h.by_optimization range' w)
        (quarters-R n (start + 15 * minute) (end + 15 * minute) r.0 range' r.1)

  optimize-R : (range : Range) (w : W) → R w (optimize stages range w).world
  unfolding optimize
  optimize-R range w = elim (Bool-cases (is_enabled stages.disable_resource_optimization)) [
    | inr e ↦ rw e (h.R_refl w)
    | inl e ↦ rw e (quarters-R 4 _ _ reports_written range w)
  ]

  after_cost-R :
      (u : W) (range : Range) (r : Option String × W)
      → R u r.1
      → R u (after_cost stages range r).world
  unfolding after_cost
  after_cost-R u range (some e, w) p = p
  after_cost-R u range (none, w) p = h.R_trans u w _ p (optimize-R range w)

  after_rows-R :
      (u : W) (range : Range) (r : Option String × W)
      → R u r.1
      → R u (after_rows stages range r).world
  unfolding after_rows
  after_rows-R u range (some e, w) p = p
  after_rows-R u range (none, w) p = elim (Bool-cases (is_enabled stages.disable_cost_management)) [
    | inr e ↦ rw e (after_cost-R u range (none, w) p)
    | inl e ↦ rw e (
        after_cost-R u range (stages.cost_management range w)
          (h.R_trans u w _ p (h.by_cost range w)))
  ]

  after_nodes-R :
      (u : W) (range : Range) (r : Result String ℕ × W)
      → R u r.1
      → R u (after_nodes stages range r).world
  unfolding after_nodes
  after_nodes-R u range (err e, w) p = p
  after_nodes-R u range (ok zero, w) p = p
  after_nodes-R u range (ok (suc n), w) p =
      after_rows-R u range (stages.node_rows range w) (h.R_trans u w _ p (h.by_node_rows range w))

  pub generate_reports-R : (range : Range) (w : W) → R w (generate_reports stages range w).world
  unfolding generate_reports
  generate_reports-R range w =
      after_nodes-R w range (stages.node_results range w) (h.by_node_results range w)
