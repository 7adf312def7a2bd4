-- ===== src/Sources/Defined.antt =====
-- What the result of a check of the source says.
use koku_metrics_operator.Base.{
  ◌≡◌, refl, String, true, false, Option, none, some, List, ok, err, Bool-cases, ◌⊎◌, inl, inr,
}
use koku_metrics_operator.Sources.{
  SourceItem, Request, SourceError, Api, SourceHandler, Checked, check_source_exists, source_create,
  refused, created, with_same_name, with_same_cluster, with_existing, with_type,
  source_get_or_create, get_source_type_id, Step,
}

module _ (api : Api) (handler : SourceHandler) where
  -- The API has found the source, or has created one and associated it.
  pub HasSource : String → Type 0
  HasSource type_id =
      ((log : List Request) × ((source : SourceItem) × ((check_source_exists api type_id
              handler.source_name handler.cluster_id log).0
            ≡ ok (some source))))
      ⊎ ((log : List Request) × ((source_create api handler type_id log).0 ≡ ok tt))

  -- Either the source is defined, with a reason, or there is an error.
  pub data IsExplained : Checked → Type 0 where
    is_defined :
        (type_id : String)
        → HasSource type_id
        → IsExplained (record { defined = true; error = none })
    is_refused : {e : SourceError} → IsExplained (record { defined = false; error = some e })

  created-IsExplained :
      (type_id : String) (log : List Request) (r : Step api (Unit {0}))
      → (source_create api handler type_id log).0 ≡ r.0
      → IsExplained (created api handler r).0
  unfolding created refused HasSource
  created-IsExplained type_id log (err e, after) h = is_refused
  created-IsExplained type_id log (ok _, after) h = is_defined type_id (inr (log, h))

  with_same_name-IsExplained :
      (type_id : String) (r : Step api (Option SourceItem))
      → IsExplained (with_same_name api handler type_id r).0
  unfolding with_same_name refused
  with_same_name-IsExplained type_id (err e, log) = is_refused
  with_same_name-IsExplained type_id (ok (some source), log) = is_refused
  with_same_name-IsExplained type_id (ok none, log) =
      created-IsExplained type_id log (source_create api handler type_id log) refl

  with_same_cluster-IsExplained :
      (type_id : String) (r : Step api (Option SourceItem))
      → IsExplained (with_same_cluster api handler type_id r).0
  unfolding with_same_cluster refused
  with_same_cluster-IsExplained type_id (err e, log) = is_refused
  with_same_cluster-IsExplained type_id (ok (some source), log) = is_refused
  with_same_cluster-IsExplained type_id (ok none, log) = with_same_name-IsExplained type_id _

  with_existing-IsExplained :
      (type_id : String) (log : List Request) (r : Step api (Option SourceItem))
      → (check_source_exists api type_id handler.source_name handler.cluster_id log).0 ≡ r.0
      → IsExplained (with_existing api handler type_id r).0
  unfolding with_existing refused HasSource
  with_existing-IsExplained type_id log (err e, after) h = is_refused
  with_existing-IsExplained type_id log (ok (some source), after) h =
      is_defined type_id (inl (log, (source, h)))
  with_existing-IsExplained type_id log (ok none, after) h =
      elim (Bool-cases handler.create_source) [
        | inr c ↦ rw c is_refused
        | inl c ↦
            simp (c, with_existing)
              (with_same_cluster-IsExplained type_id
                (check_source_exists api type_id "" handler.cluster_id after))
      ]

  with_type-IsExplained : (r : Step api String) → IsExplained (with_type api handler r).0
  unfolding with_type refused
  with_type-IsExplained (err e, log) = is_refused
  with_type-IsExplained (ok type_id, log) = with_existing-IsExplained type_id log _ refl

  -- Every check of the source ends with an error, or without one and with the source defined; in
  -- the second case the API has found a source with its type, its name and its cluster, or the
  -- requests that create the source and associate it with the application have succeeded.
  pub source_get_or_create-IsExplained :
      (log : List Request) → IsExplained (source_get_or_create api handler log).0
  unfolding source_get_or_create
  source_get_or_create-IsExplained log = with_type-IsExplained (get_source_type_id api log)
