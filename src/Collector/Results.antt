-- ===== src/Collector/Results.antt =====
-- The results of queries by their rows: generateKey, findFields, iterateVector, iterateMatrix and the
-- functions on samples of internal/collector/collector.go. A Go map is the list of its entries. The
-- arithmetic of float64 and the match of a regular expression are parameters.
pub mod Row
use koku_metrics_operator.Base.{
  ℕ, zero, suc, String, ◌<>◌, str_eq, Bool, true, false, Option, none, some, List, [], ◌∷◌, length,
  if◌then◌else◌, map, not,
}
use koku_metrics_operator.Base.Text.{join, last_piece}
use koku_metrics_operator.Base.Dict.{lookup, insert}
use koku_metrics_operator.Base.Order.{sort_texts}
use koku_metrics_operator.Collector.Query.{Query, SaveQueryValue}

-- What is used of float64, of `strconv.FormatFloat` and of `regexp.MatchString`.
pub record Lib (F : Type 0) : Type 0 where
  pub zero : F
  pub sixty : F
  pub add : F → F → F
  pub mul : F → F → F
  pub div : F → F → F
  pub greater : F → F → Bool
  pub of_length : ℕ → F
  pub float_to_string : F → String
  pub matches : String → String → Bool

abbrev pub Metric : Type 0
Metric = List (String × String)

-- mappedValues, whose values are texts.
abbrev pub Values : Type 0
Values = List (String × String)

-- mappedResults
abbrev pub Results : Type 0
Results = List (String × Values)

-- A missing label or key reads as the empty text.
abbrev pub get : String → List (String × String) → String
get key m = elim (lookup key m) [ none ↦ "" | some v ↦ v ]

-- generateKey
unfoldable pub generate_key : Metric → List String → String
unfolding sort_texts join
generate_key metric (key ∷ []) = get key metric
generate_key metric keys = join (sort_texts (map (λ key. get key metric) keys)) ","

-- A sample of an instant query.
pub record Sample (F : Type 0) : Type 0 where
  pub metric : Metric
  pub value : F

-- A series of a range query.
pub record Stream (F : Type 0) : Type 0 where
  pub metric : Metric
  pub values : List F

-- The row of a key, which is made if it is not there.
abbrev pub row_or_new : Option Values → Values
row_or_new none = []
row_or_new (some values) = values

module _ {F : Type 0} (lib : Lib F) where
  -- sumSlice
  sum_from : F → List F → F
  sum_from sum [] = sum
  sum_from sum (v ∷ vs) = sum_from (lib.add sum v) vs

  max_from : F → List F → F
  max_from max [] = max
  max_from max (v ∷ vs) = max_from (if lib.greater v max then v else max) vs

  min_from : F → List F → F
  min_from min [] = min
  min_from min (v ∷ vs) = min_from (if lib.greater min v then v else min) vs

  -- maxSlice and minSlice read the first element, which panics without one.
  max_slice : List F → Option F
  unfolding max_from
  max_slice [] = none
  max_slice (v ∷ vs) = some (max_from v (v ∷ vs))

  min_slice : List F → Option F
  unfolding min_from
  min_slice [] = none
  min_slice (v ∷ vs) = some (min_from v (v ∷ vs))

  avg_slice : List F → F
  unfolding sum_from
  avg_slice [] = lib.zero
  avg_slice (v ∷ vs) = lib.div (sum_from lib.zero (v ∷ vs)) (lib.of_length (length (v ∷ vs)))

  -- getValue; `none` is a panic.
  unfoldable pub get_value : String → List F → Option F
  unfolding sum_from max_slice min_slice avg_slice
  get_value method values =
      if str_eq method "sum"
      then some (sum_from lib.zero values)
      else if str_eq method "max"
      then max_slice values
      else if str_eq method "min"
      then min_slice values
      else if str_eq method "avg"
      then some (avg_slice values)
      else some lib.zero

  found : String → Metric → List String
  found regex [] = []
  found regex ((name, val) ∷ metric) =
      if lib.matches regex name
      then (name <> (":" <> val)) ∷ found regex metric
      else found regex metric

  -- findFields
  unfoldable pub find_fields : Metric → String → String
  unfolding found sort_texts join
  find_fields metric regex = join (sort_texts (found regex metric)) "|"

  set_keys : Metric → List (String × String) → Values → Values
  unfolding lookup insert
  set_keys metric [] values = values
  set_keys metric ((key, field) ∷ keys) values =
      set_keys metric keys (insert key (get field metric) values)

  set_regex_keys : Metric → List (String × String) → Values → Values
  unfolding insert find_fields
  set_regex_keys metric [] values = values
  set_regex_keys metric ((key, regex) ∷ keys) values =
      set_regex_keys metric keys (insert key (find_fields metric regex) values)

  -- What a sample sets in its row.
  unfoldable pub sample_row : Query → Sample F → Values → Values
  unfolding set_keys set_regex_keys insert
  sample_row q sample values =
      let named =
        set_regex_keys sample.metric q.metric_key_regex
          (set_keys sample.metric q.metric_key values) in
      elim q.query_value [
        | none ↦ named
        | some save ↦ insert save.val_name (lib.float_to_string sample.value) named
      ]

  -- The value of a series, and what it is transformed to: times 60 for each minute.
  set_stream_value : SaveQueryValue → List F → Option F → Values → Option Values
  unfolding insert
  set_stream_value save samples none values = none
  set_stream_value save samples (some value) values =
      let valued = insert save.val_name (lib.float_to_string value) values in
      let factor =
        if str_eq save.method "max"
        then lib.mul lib.sixty (lib.of_length (length samples))
        else lib.sixty in
      some (
        if str_eq save.transformed_name ""
        then valued
        else insert save.transformed_name (lib.float_to_string (lib.mul value factor)) valued)

  unfoldable pub stream_row : Query → Stream F → Values → Option Values
  unfolding set_keys set_regex_keys get_value set_stream_value
  stream_row q stream values =
      let named =
        set_regex_keys stream.metric q.metric_key_regex
          (set_keys stream.metric q.metric_key values) in
      elim q.query_value [
        | none ↦ some named
        | some save ↦
            set_stream_value save stream.values (get_value save.method stream.values) named
      ]

  -- iterateVector
  unfoldable pub iterate_vector : List (Sample F) → Query → Results → Results
  unfolding generate_key lookup insert sample_row
  iterate_vector [] q results = results
  iterate_vector (sample ∷ vector) q results =
      let obj = generate_key sample.metric q.row_key in
      iterate_vector vector q
        (insert obj (sample_row q sample (row_or_new (lookup obj results))) results)

  set_row : String → Results → Option Values → Option Results
  unfolding insert
  set_row obj results none = none
  set_row obj results (some values) = some (insert obj values results)

  -- iterateMatrix; `none` is a panic.
  unfoldable pub iterate_matrix : List (Stream F) → Query → Results → Option Results
  unfolding generate_key lookup stream_row set_row
  iterate_matrix [] q results = some results
  iterate_matrix (stream ∷ matrix) q results =
      let obj = generate_key stream.metric q.row_key in
      elim (set_row obj results (stream_row q stream (row_or_new (lookup obj results)))) [
        | none ↦ none
        | some results' ↦ iterate_matrix matrix q results'
      ]
