-- ===== src/Collector/Generate.antt =====
-- The order of the reports, their errors, and what becomes of the range: GenerateReports of
-- internal/collector/collector.go. `timeRange` and `c.TimeSeries` are one pointer, so that the loop
-- over quarters of an hour changes the range of the caller. The queries and the writing of single
-- reports are arguments, by the range that they see.
pub mod Quarters
pub mod Preserved
use koku_metrics_operator.Base.{
  ℕ, zero, suc, ◌+◌, ◌*◌, String, Bool, true, false, ◌&&◌, not, Option, none, some, List, [], ◌∷◌,
  Result, ok, err, if◌then◌else◌, ◌==◌,
}
use koku_metrics_operator.Base.Time.{Time, second, minute}
use koku_metrics_operator.Collector.Rows.Dates.{Range}

-- What GenerateReports can return: nil, the two errors that the caller tells apart, or another.
pub data Generated : Type 0 where
  reports_written no_data ros_no_enabled_namespaces : Generated
  failure : String → Generated

-- `node_results` gives the number of rows of the node queries, and `node_rows` makes their rows; the
-- switches are what the pointers refer to. `cost_management` is generateCostManagementReports, and
-- `resource_optimization` is generateResourceOptimizationReports. Each changes the world `W`.
pub record Stages (W : Type 0) : Type 0 where
  pub disable_cost_management : Option Bool
  pub disable_resource_optimization : Option Bool
  pub node_results : Range → W → Result String ℕ × W
  pub node_rows : Range → W → Option String × W
  pub cost_management : Range → W → Option String × W
  pub resource_optimization : Range → W → Generated × W

-- What GenerateReports returns, and the range and the world that it leaves.
pub record Ran (W : Type 0) : Type 0 where
  pub result : Generated
  pub range : Range
  pub world : W

-- A report is made only if its switch is given and off.
abbrev pub is_enabled : Option Bool → Bool
is_enabled none = false
is_enabled (some disabled) = not disabled

module _ {W : Type 0} (stages : Stages W) where
  abbrev ran : Generated → Range → W → Ran W
  ran g range w = record { result = g; range = range; world = w }

  -- The loop returns an error at once, but goes on without enabled namespaces.
  stop_or : Generated → Range → W → Ran W → Ran W
  stop_or (failure e) range w rest = ran (failure e) range w
  stop_or no_data range w rest = ran no_data range w
  stop_or reports_written range w rest = rest
  stop_or ros_no_enabled_namespaces range w rest = rest

  -- The loop over quarters: the range of the next, the error of the last and the range so far.
  unfoldable pub quarters : ℕ → Time → Time → Generated → Range → W → Ran W
  unfolding stop_or
  quarters zero start end e range w = ran e range w
  quarters (suc n) start end e range w =
      let range' = record range { start = start; end = end } in
      let r = stages.resource_optimization range' w in
      let rest = quarters n (start + 15 * minute) (end + 15 * minute) r.0 range' r.1 in
      stop_or r.0 range' r.1 rest

  -- Resource optimization, after the reports of cost management.
  optimize : Range → W → Ran W
  unfolding quarters
  optimize range w =
      let start = range.start + second in
      if is_enabled stages.disable_resource_optimization
      then quarters 4 start (start + (14 * minute + 59 * second)) reports_written range w
      else ran reports_written range w

  after_cost : Range → Option String × W → Ran W
  unfolding optimize
  after_cost range (some e, w) = ran (failure e) range w
  after_cost range (none, w) = optimize range w

  after_rows : Range → Option String × W → Ran W
  unfolding after_cost
  after_rows range (some e, w) = ran (failure e) range w
  after_rows range (none, w) = after_cost range (
      if is_enabled stages.disable_cost_management
      then stages.cost_management range w
      else (none, w))

  after_nodes : Range → Result String ℕ × W → Ran W
  unfolding after_rows
  after_nodes range (err e, w) = ran (failure e) range w
  after_nodes range (ok zero, w) = ran no_data range w
  after_nodes range (ok (suc n), w) = after_rows range (stages.node_rows range w)

  -- GenerateReports
  unfoldable pub generate_reports : Range → W → Ran W
  unfolding after_nodes
  generate_reports range w = after_nodes range (stages.node_results range w)
