-- ===== src/Collector/Shaping.antt =====
-- What generateCost…Report and generateResourceOptimizationReports of internal/collector/collector.go
-- make of the results of queries before they are written.
pub mod Merge
pub mod OnNode
use koku_metrics_operator.Base.{
  String, ◌<>◌, str_eq, not, Option, none, some, List, [], ◌∷◌, map, if◌then◌else◌,
}
use koku_metrics_operator.Base.Text.{join, last_piece}
use koku_metrics_operator.Base.Space.{trim_space}
use koku_metrics_operator.Base.Dict.{lookup, insert}
use koku_metrics_operator.Base.Order.{sort_texts}
use koku_metrics_operator.Base.Decimal.{padded}
use koku_metrics_operator.Base.Time.{Time, year_of, month_day_of}
use koku_metrics_operator.Collector.Rows.{CsvStruct}
use koku_metrics_operator.Collector.Rows.Dates.{Range}
use koku_metrics_operator.Collector.Rows.Node.{NodeRow}
use koku_metrics_operator.Collector.Rows.Pod.{PodRow}
use koku_metrics_operator.Collector.Rows.RosContainer.{RosContainerRow}
use koku_metrics_operator.Collector.Results.{Values, Results, get}
use koku_metrics_operator.Collector.Decode.{node_row, pod_row, ros_container_row}

-- `Format("200601")`
unfoldable pub year_month : Time → String
unfolding year_of month_day_of padded
year_month t = padded 4 (year_of t) <> padded 2 (month_day_of t).month

-- getResourceID; a value that is missing gives the empty text as well.
unfoldable pub get_resource_id : String → String
unfolding last_piece
get_resource_id provider_id = last_piece provider_id "/"

-- `val["resource_id"] = getResourceID(val["provider_id"])`
unfoldable pub with_resource_id : Values → Values
unfolding get_resource_id insert lookup
with_resource_id val = insert "resource_id" (get_resource_id (get "provider_id" val)) val

unfoldable pub with_resource_ids : Results → Results
unfolding with_resource_id
with_resource_ids results = map (λ entry. (entry.0, with_resource_id entry.1)) results

-- The rows of the nodes, by name.
unfoldable pub rows_of_nodes : Range → Results → List (String × NodeRow)
unfolding node_row
rows_of_nodes ts results = map (λ entry. (entry.0, node_row ts entry.1)) results

-- The row of a node that has one, or a new row.
unfoldable pub row_of_node : Range → List (String × NodeRow) → String → NodeRow
unfolding lookup node_row
row_of_node ts nodes name = elim (lookup name nodes) [ some r ↦ r | none ↦ node_row ts [] ]

-- A row of a pod or of a container takes over the row of its node.
unfoldable pub pod_row_on_node : Range → List (String × NodeRow) → Values → PodRow
unfolding pod_row row_of_node lookup
pod_row_on_node ts nodes val = elim (lookup "node" val) [
  | none ↦ pod_row ts val
  | some name ↦ record (pod_row ts val) { node_row = row_of_node ts nodes name }
]

unfoldable pub ros_container_row_on_node :
    Range → List (String × NodeRow) → Values → RosContainerRow
unfolding ros_container_row row_of_node lookup
ros_container_row_on_node ts nodes val = elim (lookup "node" val) [
  | none ↦ ros_container_row ts val
  | some name ↦ record (ros_container_row ts val) { node_row = row_of_node ts nodes name }
]

-- mergeMappedValues
unfoldable pub merge_mapped_values : Values → Values → Values
unfolding insert
merge_mapped_values target [] = target
merge_mapped_values target (entry ∷ source) =
    merge_mapped_values (insert entry.0 entry.1 target) source

merge_found : Option Values → Values → Values
unfolding merge_mapped_values
merge_found none target = target
merge_found (some source) target = merge_mapped_values target source

-- The key of the capacity of a GPU that is not partitioned.
unfoldable pub resource_key : Values → String
unfolding sort_texts join lookup
resource_key val = join (sort_texts (get "pod" val ∷ get "namespace" val ∷ get "node" val ∷ [])) ","

-- The values of a GPU with its capacity and its slices, by the results of the queries for those.
unfoldable pub with_capacity : Results → Results → Results → String → Values → Values
unfolding merge_found resource_key lookup trim_space
with_capacity mig non_mig slices key val =
    if not (str_eq (trim_space (get "mig_instance_id" val)) "")
    then merge_found (lookup key slices) (merge_found (lookup key mig) val)
    else merge_found (lookup (resource_key val) non_mig) val

-- A row of each entry.
unfoldable pub rows : (Values → CsvStruct) → Results → List CsvStruct
rows f results = map (λ entry. f entry.1) results
