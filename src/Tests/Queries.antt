-- ===== src/Tests/Queries.antt =====
-- The theorems on queries, their results and the order of the reports, applied to a small source.
use koku_metrics_operator.Base.{
  ℕ, ◌+◌, ◌*◌, ◌≤◌, ◌≡◌, refl, String, str_eq, false, none, some, List, [], ◌∷◌, Ensures,
  if◌then◌else◌, ltb, ◌==◌, ◌⊎◌, ok,
}
use koku_metrics_operator.Base.Dict.{lookup}
use koku_metrics_operator.Collector.Rows.Dates.{Range}
use koku_metrics_operator.Collector.Query.{
  Query, answered, failed, Asked, Source, get_query_results, max_retries,
}
use koku_metrics_operator.Collector.Query.Once.{Applied, get_query_results-applies_once}
use koku_metrics_operator.Collector.Query.Bounds.{get_query_results-bounded}
use koku_metrics_operator.Collector.Results.{
  Lib, Sample, Stream, Results, iterate_vector, iterate_matrix,
}
use koku_metrics_operator.Collector.Results.Row.{
  row_after, row_after_matrix, iterate_vector-row_after, iterate_matrix-row_after,
}
use koku_metrics_operator.Collector.Generate.{Stages, reports_written, failure, generate_reports}
use koku_metrics_operator.Collector.Generate.Quarters.{IsQuarter, generate_reports-range}

abbrev named : String → Query
named name = record {
  name = name;
  query_string = name;
  metric_key = ("pod", "pod") ∷ [];
  metric_key_regex = [];
  query_value = some (record { val_name = "usage"; method = "sum"; transformed_name = "" });
  row_key = "pod" ∷ [];
}

-- The first two calls fail; the results are the names of the queries that were applied.
abbrev flaky : Source String (List String)
flaky = record {
  ask = λ n q. if ltb n 2 then failed "timeout" else answered q.name;
  iterate = λ v q names. some (v ∷ names);
}

abbrev two_queries : List Query
two_queries = named "cpu" ∷ named "memory" ∷ []

abbrev nothing_asked : Asked (List String)
nothing_asked = record { calls = 0; results = []; waited = 0 }

flaky_run :
    get_query_results flaky max_retries two_queries nothing_asked
    ≡ ok (record { calls = 4; results = "memory" ∷ "cpu" ∷ []; waited = 2 })
unfolding get_query_results
flaky_run = refl

get_query_results-applies_once_example :
    Ensures
      (λ (st' : Asked (List String)). Applied flaky two_queries [] st'.results)
      (get_query_results flaky max_retries two_queries nothing_asked)
get_query_results-applies_once_example =
    get_query_results-applies_once flaky max_retries two_queries nothing_asked

get_query_results-bounded_example :
    Ensures
      (λ (st' : Asked (List String)). (st'.calls ≤ 12) × (st'.waited ≤ 62))
      (get_query_results flaky max_retries two_queries nothing_asked)
get_query_results-bounded_example = get_query_results-bounded flaky two_queries nothing_asked

-- Whole numbers in place of floats.
abbrev whole_numbers : Lib ℕ
whole_numbers = record {
  zero = 0;
  sixty = 60;
  add = λ a b. a + b;
  mul = λ a b. a * b;
  div = λ a b. a;
  greater = λ a b. false;
  of_length = λ n. n;
  float_to_string = λ n. if n == 1 then "1" else "many";
  matches = λ regex name. str_eq regex name;
}

abbrev some_vector : List (Sample ℕ)
some_vector =
    record { metric = ("pod", "web") ∷ []; value = 1 }
    ∷ record { metric = ("pod", "db") ∷ []; value = 5 }
    ∷ record { metric = ("pod", "web") ∷ []; value = 2 }
    ∷ []

iterate_vector-row_after_example :
    lookup "web" (iterate_vector whole_numbers some_vector (named "cpu") [])
    ≡ row_after whole_numbers "web" (named "cpu") some_vector (lookup "web" [])
iterate_vector-row_after_example =
    iterate_vector-row_after whole_numbers "web" (named "cpu") some_vector []

-- Resource optimization fails in the third quarter.
abbrev some_stages : Stages ℕ
some_stages = record {
  disable_cost_management = some false;
  disable_resource_optimization = some false;
  node_results = λ range w. (ok 2, w);
  node_rows = λ range w. (none, w);
  cost_management = λ range w. (none, w);
  resource_optimization = λ range w.
      (if range.start == 1801000000000 then failure "timeout" else reports_written, w + 1);
}

abbrev first_hour : Range
first_hour = record { start = 0; end = 3599000000000 }

generate_reports-range_example :
    ((generate_reports some_stages first_hour 0).range ≡ first_hour)
    ⊎ IsQuarter 0 (generate_reports some_stages first_hour 0).range
generate_reports-range_example = generate_reports-range some_stages first_hour 0

abbrev some_matrix : List (Stream ℕ)
some_matrix =
    record { metric = ("pod", "web") ∷ []; values = 1 ∷ 2 ∷ [] }
    ∷ record { metric = ("pod", "db") ∷ []; values = 5 ∷ [] }
    ∷ []

abbrev some_rows : Results
some_rows =
    ("web", ("pod", "web") ∷ ("usage", "many") ∷ [])
    ∷ ("db", ("pod", "db") ∷ ("usage", "many") ∷ [])
    ∷ []

gathered : iterate_matrix whole_numbers some_matrix (named "cpu") [] ≡ some some_rows
unfolding iterate_matrix
gathered = refl

iterate_matrix-row_after_example :
    lookup "web" some_rows
    ≡ row_after_matrix whole_numbers "web" (named "cpu") some_matrix (lookup "web" [])
iterate_matrix-row_after_example =
    iterate_matrix-row_after whole_numbers "web" (named "cpu") some_matrix [] some_rows gathered
