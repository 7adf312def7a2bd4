-- ===== src/Collector/Queries/Columns.antt =====
-- The queries of internal/collector/queries.go beside the row types that their results are decoded
-- into.
use koku_metrics_operator.Base.{
  String, str_eq, Bool, true, false, ◌&&◌, ◌||◌, not, Option, none, some, List, [], ◌∷◌, ◌++◌, map,
  elem, All, ◌≡◌, refl, subst, Bool-cases, inl, inr, eq_iff, arith, if◌then◌else◌,
}
use koku_metrics_operator.Collector.Query.{Query, SaveQueryValue}
use koku_metrics_operator.Collector.Decode.Keys.{
  namespace_keys, node_keys, pod_keys, storage_keys, vm_keys, nvidia_gpu_keys, ros_container_keys,
  ros_namespace_keys,
}
use koku_metrics_operator.Collector.Queries.{ros_container_queries, ros_namespace_queries}
use koku_metrics_operator.Collector.Queries.Node.{node_queries, namespace_queries}
use koku_metrics_operator.Collector.Queries.Pod.{pod_queries}
use koku_metrics_operator.Collector.Queries.Storage.{vol_queries}
use koku_metrics_operator.Collector.Queries.Vm.{vm_queries}
use koku_metrics_operator.Collector.Queries.NvidiaGpu.{
  nvidia_gpu_memory_capacity_non_mig_queries, nvidia_gpu_memory_capacity_mig_queries,
  nvidia_gpu_utilization_queries, nvidia_gpu_max_slices_queries,
}

-- The reports, of which two are made of instant queries.
pub data Kind : Type 0 where
  namespace node pod storage vm nvidia_gpu ros_container ros_namespace : Kind

-- Is the report made of instant queries, which transform no value?
abbrev pub is_instant : Kind → Bool
is_instant ros_container = true
is_instant ros_namespace = true
is_instant namespace = false
is_instant node = false
is_instant pod = false
is_instant storage = false
is_instant vm = false
is_instant nvidia_gpu = false

-- The queries whose values a row of the report is decoded from.
abbrev pub queries : Kind → List Query
queries namespace = namespace_queries
queries node = node_queries
queries pod = pod_queries
queries storage = vol_queries
queries vm = vm_queries
queries nvidia_gpu =
    nvidia_gpu_utilization_queries
    ++ (nvidia_gpu_memory_capacity_mig_queries
        ++ (nvidia_gpu_memory_capacity_non_mig_queries ++ nvidia_gpu_max_slices_queries))
queries ros_container = ros_container_queries
queries ros_namespace = ros_namespace_queries

abbrev pub keys : Kind → List String
keys namespace = namespace_keys
keys node = node_keys
keys pod = pod_keys
keys storage = storage_keys
keys vm = vm_keys
keys nvidia_gpu = nvidia_gpu_keys
keys ros_container = ros_container_keys
keys ros_namespace = ros_namespace_keys

-- The keys that a query sets in a row.
abbrev value_keys : Bool → Option SaveQueryValue → List String
value_keys instant none = []
value_keys instant (some save) =
    save.val_name
    ∷ (if instant || str_eq save.transformed_name "" then [] else save.transformed_name ∷ [])

abbrev sets : Bool → Query → List String
sets instant q =
    map (λ (e : String × String). e.0) q.metric_key
    ++ (map (λ (e : String × String). e.0) q.metric_key_regex ++ value_keys instant q.query_value)

abbrev set_by : String → Bool → List Query → Bool
set_by key instant [] = false
set_by key instant (q ∷ qs) = elem key (sets instant q) || set_by key instant qs

-- Is the key one that GenerateReports sets itself, or one that a query sets?
abbrev pub is_filled : Kind → String → Bool
is_filled k key = str_eq key "resource_id" || set_by key (is_instant k) (queries k)

-- A method that getValue knows.
abbrev known_method : String → Bool
known_method m = str_eq m "sum" || (str_eq m "max" || (str_eq m "min" || str_eq m "avg"))

-- The query has an expression and a row key, and a known method, if a value of a range is saved.
abbrev pub is_sound : Bool → Query → Bool
is_sound instant q =
    not (str_eq q.query_string "")
    && ((elim q.row_key [ [] ↦ false | key ∷ rest ↦ true ])
        && (instant || (elim q.query_value [ none ↦ true | some save ↦ known_method save.method ])))

abbrev all {ℓ} : {A : Type ℓ} → (A → Bool) → List A → Bool
all p [] = true
all p (x ∷ xs) = p x && all p xs

all-All : {A : Type 0} (p : A → Bool) (xs : List A) → all p xs ≡ true → All (λ x. p x ≡ true) xs
all-All p [] h = tt
all-All p (x ∷ xs) h = (ground (arith, h), all-All p xs (ground (arith, h)))

all-elem :
    (p : String → Bool) (key : String) (keys : List String)
    → all p keys ≡ true
    → elem key keys ≡ true
    → p key ≡ true
all-elem p key [] h e = cc
all-elem p key (x ∷ keys) h e = elim (Bool-cases (str_eq x key)) [
  | inl same ↦ subst (λ (k : String). p k ≡ true) ((eq_iff x key).0 same) (ground (arith, h))
  | inr differ ↦ all-elem p key keys (ground (arith, h)) (ground (arith, e, differ))
]

all-is_filled : (k : Kind) → all (is_filled k) (keys k) ≡ true
unfolding namespace_keys node_keys pod_keys storage_keys vm_keys nvidia_gpu_keys ros_container_keys
    ros_namespace_keys namespace_queries node_queries pod_queries vol_queries vm_queries
    nvidia_gpu_utilization_queries nvidia_gpu_memory_capacity_mig_queries
    nvidia_gpu_memory_capacity_non_mig_queries nvidia_gpu_max_slices_queries ros_container_queries
    ros_namespace_queries
all-is_filled namespace = refl
all-is_filled node = refl
all-is_filled pod = refl
all-is_filled storage = refl
all-is_filled vm = refl
all-is_filled nvidia_gpu = refl
all-is_filled ros_container = refl
all-is_filled ros_namespace = refl

all-is_sound : (k : Kind) → all (is_sound (is_instant k)) (queries k) ≡ true
unfolding namespace_keys node_keys pod_keys storage_keys vm_keys nvidia_gpu_keys ros_container_keys
    ros_namespace_keys namespace_queries node_queries pod_queries vol_queries vm_queries
    nvidia_gpu_utilization_queries nvidia_gpu_memory_capacity_mig_queries
    nvidia_gpu_memory_capacity_non_mig_queries nvidia_gpu_max_slices_queries ros_container_queries
    ros_namespace_queries
all-is_sound namespace = refl
all-is_sound node = refl
all-is_sound pod = refl
all-is_sound storage = refl
all-is_sound vm = refl
all-is_sound nvidia_gpu = refl
all-is_sound ros_container = refl
all-is_sound ros_namespace = refl

-- Every key that the row type of a report is decoded from is set by a query of the report, but for
-- resource_id, which GenerateReports sets; and every query of a report has an expression and a row key,
-- and a method that getValue knows, if it saves a value of a range.
pub queries-fill_rows :
    (k : Kind) (key : String)
    → elem key (keys k) ≡ true
    → (is_filled k key ≡ true) × All (λ q. is_sound (is_instant k) q ≡ true) (queries k)
queries-fill_rows k key h = (
  all-elem (is_filled k) key (keys k) (all-is_filled k) h,
  all-All (is_sound (is_instant k)) (queries k) (all-is_sound k),
)
