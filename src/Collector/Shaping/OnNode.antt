-- ===== src/Collector/Shaping/OnNode.antt =====
-- The columns of a node in the rows of its pods and containers.
use koku_metrics_operator.Base.{
  String, str_eq, Option, none, some, List, [], ◌∷◌, ◌≡◌, refl, ap, ◌∙◌, map, Bool-cases, inl, inr,
}
use koku_metrics_operator.Base.Dict.{lookup}
use koku_metrics_operator.Collector.Rows.Dates.{Range}
use koku_metrics_operator.Collector.Rows.Node.{NodeRow}
use koku_metrics_operator.Collector.Results.{Values, Results}
use koku_metrics_operator.Collector.Decode.{node_row}
use koku_metrics_operator.Collector.Shaping.{
  with_resource_id, with_resource_ids, rows_of_nodes, row_of_node, pod_row_on_node,
  ros_container_row_on_node,
}

abbrev map_found : {V W : Type 0} → (V → W) → Option V → Option W
map_found f none = none
map_found f (some v) = some (f v)

-- A function on values, applied to every entry, is applied to what is found.
lookup-map :
    {V W : Type 0} (f : V → W) (wanted : String) (entries : List (String × V))
    → lookup wanted (map (λ entry. (entry.0, f entry.1)) entries)
      ≡ map_found f (lookup wanted entries)
unfolding lookup
lookup-map f wanted [] = refl
lookup-map f wanted (entry ∷ entries) = elim (Bool-cases (str_eq entry.0 wanted)) [
  | inl e ↦ rw e refl
  | inr e ↦ rw e (lookup-map f wanted entries)
]

-- The row of what the node queries found of a node: with the last part of the provider's id as the
-- resource's, or a new row.
abbrev pub row_of_values : Range → Option Values → NodeRow
row_of_values ts none = node_row ts []
row_of_values ts (some val) = node_row ts (with_resource_id val)

abbrev given_row : Range → Option NodeRow → NodeRow
given_row ts none = node_row ts []
given_row ts (some r) = r

row_of_node-given :
    (ts : Range) (nodes : List (String × NodeRow)) (name : String)
    → row_of_node ts nodes name ≡ given_row ts (lookup name nodes)
unfolding row_of_node
row_of_node-given ts nodes name =
    elim (lookup name nodes)
      as (λ o. (elim o [ some r ↦ r | none ↦ node_row ts [] ]) ≡ given_row ts o) [
        | none ↦ refl
        | some r ↦ refl
      ]

given_row-values :
    (ts : Range) (o : Option Values)
    → given_row ts (map_found (node_row ts) (map_found with_resource_id o)) ≡ row_of_values ts o
given_row-values ts none = refl
given_row-values ts (some val) = refl

row_of_node-values :
    (ts : Range) (results : Results) (name : String)
    → row_of_node ts (rows_of_nodes ts (with_resource_ids results)) name
      ≡ row_of_values ts (lookup name results)
unfolding rows_of_nodes with_resource_ids
row_of_node-values ts results name =
    row_of_node-given ts (rows_of_nodes ts (with_resource_ids results)) name
    ∙ ap (given_row ts) (
        lookup-map (node_row ts) name (with_resource_ids results)
        ∙ ap (map_found (node_row ts)) (lookup-map with_resource_id name results))
    ∙ given_row-values ts (lookup name results)

-- If the values of a pod or of a container name a node, then its row has the row of what the node
-- queries found of that node, with the resource's id, or a new row if they found nothing of it.
pub row_on_node-found :
    (ts : Range) (results : Results) (val : Values) (name : String)
    → lookup "node" val ≡ some name
    → (let nodes = rows_of_nodes ts (with_resource_ids results) in
        let found = row_of_values ts (lookup name results) in
        ((pod_row_on_node ts nodes val).node_row ≡ found)
        × ((ros_container_row_on_node ts nodes val).node_row ≡ found))
unfolding pod_row_on_node ros_container_row_on_node
row_on_node-found ts results val name named =
    let found = row_of_node-values ts results name in
    (rw (named, pod_row_on_node) found, rw (named, ros_container_row_on_node) found)
