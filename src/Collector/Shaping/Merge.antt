-- ===== src/Collector/Shaping/Merge.antt =====
-- Where the values of a GPU's row come from.
use koku_metrics_operator.Base.{
  String, str_eq, true, false, Option, none, some, List, [], ◌∷◌, ◌≡◌, refl, map, elem, distinct,
  All, subst, ap, arith, Bool-cases, inl, inr, if◌then◌else◌, eq_iff, ◌∙◌,
}
use koku_metrics_operator.Base.Space.{trim_space}
use koku_metrics_operator.Base.Dict.{lookup, insert, lookup-insert}
use koku_metrics_operator.Collector.Results.{Values, Results, get}
use koku_metrics_operator.Collector.Shaping.{
  merge_mapped_values, merge_found, resource_key, with_capacity,
}

-- The first of two optional values.
abbrev pub or_else : Option String → Option String → Option String
or_else none o = o
or_else (some v) o = some v

abbrev keys : Values → List String
keys values = map (λ entry. entry.0) values

lookup-absent :
    (wanted : String) (values : Values)
    → elem wanted (keys values) ≡ false
    → lookup wanted values ≡ none
unfolding lookup
lookup-absent wanted [] h = refl
lookup-absent wanted (entry ∷ values) h = ground (arith, h, lookup-absent wanted values)

-- The values of a map, whose keys are distinct, come before those that they are merged into.
merge_mapped_values-lookup :
    (wanted : String) (target source : Values)
    → distinct (keys source) ≡ true
    → lookup wanted (merge_mapped_values target source)
      ≡ or_else (lookup wanted source) (lookup wanted target)
unfolding merge_mapped_values lookup
merge_mapped_values-lookup wanted target [] h = refl
merge_mapped_values-lookup wanted target (entry ∷ source) h =
    let ih =
      merge_mapped_values-lookup wanted (insert entry.0 entry.1 target) source
        (ground (arith, h)) in
    let set = lookup-insert entry.0 wanted entry.1 target in
    elim (Bool-cases (str_eq entry.0 wanted)) [
      | inr e ↦ rw e (ground (arith, ih, set, e))
      | inl e ↦
          let absent = lookup-absent wanted source (ground (arith, h, e, eq_iff entry.0 wanted)) in
          rw e (ground (arith, ih, set, e, absent))
    ]

-- Is every entry a map, whose keys are distinct?
abbrev pub AreMaps : Results → Type 0
AreMaps results = All (λ entry. distinct (keys entry.1) ≡ true) results

AreMaps-lookup :
    (key : String) (results : Results) (values : Values)
    → AreMaps results
    → lookup key results ≡ some values
    → distinct (keys values) ≡ true
unfolding lookup
AreMaps-lookup key [] values maps found = cc
AreMaps-lookup key (entry ∷ results) values maps found = elim (Bool-cases (str_eq entry.0 key)) [
  | inl e ↦
      let same : entry.1 ≡ values = ground (arith, found, e) in
      subst (λ (v : Values). distinct (keys v) ≡ true) same maps.0
  | inr e ↦ AreMaps-lookup key results values maps.1 (ground (arith, found, e))
]

-- A column of the entry of a key.
abbrev pub column_of : String → Option Values → Option String
column_of column none = none
column_of column (some values) = lookup column values

merge_found-lookup :
    (results : Results) (key column : String) (target : Values) (o : Option Values)
    → AreMaps results
    → lookup key results ≡ o
    → lookup column (merge_found o target) ≡ or_else (column_of column o) (lookup column target)
unfolding merge_found
merge_found-lookup results key column target none maps e = refl
merge_found-lookup results key column target (some source) maps e =
    merge_mapped_values-lookup column target source (AreMaps-lookup key results source maps e)

-- If the results of the queries are maps, then a column of a GPU that is not partitioned comes from
-- the capacity of its pod, namespace and node, or else from the utilization; and a column of a
-- partition comes from its slices, or else from the capacity of the partition, or else from the
-- utilization.
pub with_capacity-precedence :
    (mig non_mig slices : Results) (key column : String) (val : Values)
    → AreMaps mig
    → AreMaps non_mig
    → AreMaps slices
    → lookup column (with_capacity mig non_mig slices key val) ≡ (
        if str_eq (trim_space (get "mig_instance_id" val)) ""
        then or_else (column_of column (lookup (resource_key val) non_mig)) (lookup column val)
        else or_else
            (column_of column (lookup key slices))
            (or_else (column_of column (lookup key mig)) (lookup column val)))
unfolding with_capacity
with_capacity-precedence mig non_mig slices key column val mig_maps non_mig_maps slices_maps =
    elim (Bool-cases (str_eq (trim_space (get "mig_instance_id" val)) "")) [
      | inl e ↦ rw e (
          merge_found-lookup non_mig (resource_key val) column val
            (lookup (resource_key val) non_mig) non_mig_maps refl)
      | inr e ↦ rw e (
          merge_found-lookup slices key column (merge_found (lookup key mig) val)
            (lookup key slices) slices_maps refl
          ∙ ap (or_else (column_of column (lookup key slices)))
              (merge_found-lookup mig key column val (lookup key mig) mig_maps refl))
    ]
