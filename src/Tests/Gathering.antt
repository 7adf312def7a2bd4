-- ===== src/Tests/Gathering.antt =====
-- The theorems on the queries and the rows of reports, applied to a small cluster.
use koku_metrics_operator.Base.{
  ℕ, ◌+◌, ◌*◌, String, str_eq, Bool, true, false, Option, none, some, List, [], ◌∷◌, length, take,
  All, ◌≡◌, refl, ◌==◌, ◌||◌, if◌then◌else◌, Bool-cases, inl, inr, ok,
}
use koku_metrics_operator.Base.Dict.{lookup}
use koku_metrics_operator.Collector.Rows.Dates.{Range}
use koku_metrics_operator.Collector.Report.{no_faults}
use koku_metrics_operator.Collector.Query.{answered}
use koku_metrics_operator.Collector.Results.{Lib, Values, Results}
use koku_metrics_operator.Collector.Queries.Columns.{
  pod, is_instant, queries, is_filled, is_sound, queries-fill_rows,
}
use koku_metrics_operator.Collector.Decode.Keys.{pod_keys}
use koku_metrics_operator.Collector.Shaping.{
  with_capacity, with_resource_ids, rows_of_nodes, pod_row_on_node, ros_container_row_on_node,
}
use koku_metrics_operator.Collector.Shaping.Merge.{with_capacity-precedence}
use koku_metrics_operator.Collector.Shaping.OnNode.{row_of_values, row_on_node-found}
use koku_metrics_operator.Collector.Reports.{ReportsEnv, Gathered}
use koku_metrics_operator.Collector.Reports.Whole.{generate_all}
use koku_metrics_operator.Collector.Reports.Grows.{lines_of_report}
use koku_metrics_operator.Collector.Reports.Kept.{generate_all-keeps_lines}

abbrev whole_numbers : Lib ℕ
whole_numbers = record {
  zero = 0;
  sixty = 60;
  add = λ a b. a + b;
  mul = λ a b. a * b;
  div = λ a b. a;
  greater = λ a b. false;
  of_length = λ n. n;
  float_to_string = λ n. if n == 1 then "1" else "many";
  matches = λ regex name. str_eq regex name;
}

-- Every query finds a series of one node.
abbrev pub one_node : ReportsEnv ℕ
one_node = record {
  lib = whole_numbers;
  query_range = λ ts n q. answered (
      record { metric = ("node", "a") ∷ ("provider_id", "aws:///i-1") ∷ []; values = 1 ∷ [] } ∷ []);
  query = λ ts n q. answered [];
  faults = λ name. no_faults;
}

abbrev first_hour : Range
first_hour = record { start = 0; end = 3599000000000 }

abbrev pub old_report : Gathered
old_report = record {
  calls = 0;
  files =
      (
        "cm-openshift-node-usage-000101.csv",
        record { dir_exists = true; file = some ("header" ∷ "row" ∷ []) },
      )
      ∷ [];
  node_values = [];
  node_rows = [];
  report_status = record { report_month = ""; last_hour_queried = "" };
}

generate_all-keeps_lines_example :
    (let w' = (generate_all one_node (some false) (some true) first_hour old_report).world in
      take 2 (lines_of_report "cm-openshift-node-usage-000101.csv" w'.files)
      ≡ "header" ∷ "row" ∷ [])
unfolding lookup
generate_all-keeps_lines_example =
    generate_all-keeps_lines one_node (some false) (some true) first_hour old_report
      "cm-openshift-node-usage-000101.csv"

queries-fill_rows_example :
    (is_filled pod "pod-usage-cpu-core-seconds" ≡ true)
    × All (λ q. is_sound (is_instant pod) q ≡ true) (queries pod)
unfolding pod_keys
queries-fill_rows_example = queries-fill_rows pod "pod-usage-cpu-core-seconds" refl

abbrev gpu : Values
gpu = ("pod", "p") ∷ ("namespace", "n") ∷ ("node", "a") ∷ ("mig_instance_id", "1") ∷ []

abbrev capacity : Results
capacity = ("k", ("gpu_memory_capacity_mib", "40960") ∷ []) ∷ []

with_capacity-precedence_example :
    lookup "gpu_memory_capacity_mib" (with_capacity capacity [] [] "k" gpu) ≡ some "40960"
unfolding lookup koku_metrics_operator.Base.Space.trim_space
with_capacity-precedence_example =
    with_capacity-precedence capacity [] [] "k" "gpu_memory_capacity_mib" gpu (refl, tt) tt tt

abbrev node_results : Results
node_results = ("a", ("node", "a") ∷ ("provider_id", "aws:///i-1") ∷ []) ∷ []

row_on_node-found_example :
    (let nodes = rows_of_nodes first_hour (with_resource_ids node_results) in
      let found = row_of_values first_hour (lookup "a" node_results) in
      ((pod_row_on_node first_hour nodes (("node", "a") ∷ [])).node_row ≡ found)
      × ((ros_container_row_on_node first_hour nodes (("node", "a") ∷ [])).node_row ≡ found))
unfolding lookup
row_on_node-found_example = row_on_node-found first_hour node_results (("node", "a") ∷ []) "a" refl
