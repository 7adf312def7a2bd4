-- ===== src/Sources/Posts.antt =====
-- When a source is created, and what the result of the check says.
use koku_metrics_operator.Base.{
  ℕ, suc, ◌+◌, ◌≤◌, ◌≡◌, refl, ap, ◌∙◌, String, true, Option, none, some, List, [], ◌∷◌, Result, ok,
  err, Bool-cases, ◌⊎◌, inl, inr, arith,
}
use koku_metrics_operator.Sources.{
  SourceItem, Request, get_request, json_request, Api, SourceHandler, do_request, read_type_id,
  get_source_type_id, get_application_type_id, read_source, check_source_exists, read_posted,
  post_source, ignore_body, post_application, associate, create_with, source_create, refused,
  created, with_same_name, with_same_cluster, with_existing, with_type, source_get_or_create, Step,
}

-- The number of requests that create something.
unfoldable pub posts : List Request → ℕ
posts [] = 0
posts (get_request endpoint queries ∷ log) = posts log
posts (json_request endpoint values ∷ log) = suc (posts log)

module _ (api : Api) (handler : SourceHandler) where
  read_type_id-posts :
      (errors : String) (r : Result String String × List Request)
      → posts (read_type_id api errors r).1 ≡ posts r.1
  unfolding read_type_id
  read_type_id-posts errors (err e, log) = refl
  read_type_id-posts errors (ok body, log) = refl

  get_source_type_id-posts : (log : List Request) → posts (get_source_type_id api log).1 ≡ posts log
  unfolding get_source_type_id do_request posts
  get_source_type_id-posts log = read_type_id-posts _ (do_request api _ log)

  get_application_type_id-posts :
      (log : List Request) → posts (get_application_type_id api log).1 ≡ posts log
  unfolding get_application_type_id do_request posts
  get_application_type_id-posts log = read_type_id-posts _ (do_request api _ log)

  read_source-posts :
      (r : Result String String × List Request) → posts (read_source api r).1 ≡ posts r.1
  unfolding read_source
  read_source-posts (err e, log) = refl
  read_source-posts (ok body, log) = refl

  check_source_exists-posts :
      (id name ref : String) (log : List Request)
      → posts (check_source_exists api id name ref log).1 ≡ posts log
  unfolding check_source_exists do_request posts
  check_source_exists-posts id name ref log = read_source-posts (do_request api _ log)

  ignore_body-log : (r : Result String String × List Request) → (ignore_body api handler r).1 ≡ r.1
  unfolding ignore_body
  ignore_body-log (err e, log) = refl
  ignore_body-log (ok body, log) = refl

  read_posted-log : (r : Result String String × List Request) → (read_posted api handler r).1 ≡ r.1
  unfolding read_posted
  read_posted-log (err e, log) = refl
  read_posted-log (ok body, log) = refl

  post_application-posts :
      (source : SourceItem) (app_type_id : String) (log : List Request)
      → posts (post_application api handler source app_type_id log).1 ≡ suc (posts log)
  unfolding post_application do_request posts
  post_application-posts source app_type_id log = ap posts (ignore_body-log (do_request api _ log))

  post_source-posts :
      (type_id : String) (log : List Request)
      → posts (post_source api handler type_id log).1 ≡ suc (posts log)
  unfolding post_source do_request posts
  post_source-posts type_id log = ap posts (read_posted-log (do_request api _ log))

  associate-posts :
      (app_type_id : String) (r : Step api SourceItem)
      → posts (associate api handler app_type_id r).1 ≤ suc (posts r.1)
  unfolding associate
  associate-posts app_type_id (err e, log) = omega arith
  associate-posts app_type_id (ok source, log) =
      omega (arith, post_application-posts source app_type_id log)

  create_with-posts :
      (type_id : String) (r : Step api String)
      → posts (create_with api handler type_id r).1 ≤ posts r.1 + 2
  unfolding create_with
  create_with-posts type_id (err e, log) = omega arith
  create_with-posts type_id (ok app_type_id, log) =
      let last = associate-posts app_type_id (post_source api handler type_id log) in
      omega (arith, post_source-posts type_id log, last)

  created-log : (r : Step api (Unit {0})) → (created api handler r).1 ≡ r.1
  unfolding created refused
  created-log (err e, log) = refl
  created-log (ok _, log) = refl

  -- No source was found by a lookup.
  pub IsFree : String → String → String → Type 0
  IsFree id name ref =
      (log : List Request) × ((check_source_exists api id name ref log).0 ≡ ok none)

  with_same_name-posts :
      (type_id : String) (r : Step api (Option SourceItem))
      → (posts (with_same_name api handler type_id r).1 ≡ posts r.1)
        ⊎ ((r.0 ≡ ok none) × (posts (with_same_name api handler type_id r).1 ≤ posts r.1 + 2))
  unfolding with_same_name refused source_create
  with_same_name-posts type_id (err e, log) = inl refl
  with_same_name-posts type_id (ok (some source), log) = inl refl
  with_same_name-posts type_id (ok none, log) =
      let same = ap posts (created-log (source_create api handler type_id log)) in
      let bound = create_with-posts type_id (get_application_type_id api log) in
      inr (refl, omega (arith, same, bound, get_application_type_id-posts log))

  with_same_cluster-posts :
      (type_id : String) (r : Step api (Option SourceItem))
      → (posts (with_same_cluster api handler type_id r).1 ≡ posts r.1)
        ⊎ (((r.0 ≡ ok none) × IsFree "" handler.source_name "")
            × (posts (with_same_cluster api handler type_id r).1 ≤ posts r.1 + 2))
  unfolding with_same_cluster refused IsFree
  with_same_cluster-posts type_id (err e, log) = inl refl
  with_same_cluster-posts type_id (ok (some source), log) = inl refl
  with_same_cluster-posts type_id (ok none, log) =
      let asked = check_source_exists api "" handler.source_name "" log in
      let same = check_source_exists-posts "" handler.source_name "" log in
      elim (with_same_name-posts type_id asked) [
        | inl e ↦ inl (e ∙ same)
        | inr h ↦ inr ((refl, (log, h.0)), omega (arith, h.1, same))
      ]

  -- The three lookups that come before a source is created find none.
  pub WasFree : String → Type 0
  WasFree type_id =
      IsFree type_id handler.source_name handler.cluster_id
      × (IsFree type_id "" handler.cluster_id × IsFree "" handler.source_name "")

  with_existing-posts :
      (type_id : String) (r : Step api (Option SourceItem))
      → (posts (with_existing api handler type_id r).1 ≡ posts r.1)
        ⊎ (((handler.create_source ≡ true)
              × ((r.0 ≡ ok none)
                  × (IsFree type_id "" handler.cluster_id × IsFree "" handler.source_name "")))
            × (posts (with_existing api handler type_id r).1 ≤ posts r.1 + 2))
  unfolding with_existing refused IsFree
  with_existing-posts type_id (err e, log) = inl refl
  with_existing-posts type_id (ok (some source), log) = inl refl
  with_existing-posts type_id (ok none, log) =
      let asked = check_source_exists api type_id "" handler.cluster_id log in
      let same = check_source_exists-posts type_id "" handler.cluster_id log in
      elim (Bool-cases handler.create_source) [
        | inr c ↦ rw c (inl refl)
        | inl c ↦
            rw (c, with_existing)
              (elim (with_same_cluster-posts type_id asked) [
                | inl e ↦ inl (e ∙ same)
                | inr h ↦ inr ((refl, (refl, ((log, h.0.0), h.0.1))), omega (arith, h.1, same))
              ])
      ]

  with_type-posts :
      (r : Step api String)
      → (posts (with_type api handler r).1 ≡ posts r.1)
        ⊎ (((handler.create_source ≡ true) × ((type_id : String) × WasFree type_id))
            × (posts (with_type api handler r).1 ≤ posts r.1 + 2))
  unfolding with_type refused WasFree IsFree
  with_type-posts (err e, log) = inl refl
  with_type-posts (ok type_id, log) =
      let asked = check_source_exists api type_id handler.source_name handler.cluster_id log in
      let same = check_source_exists-posts type_id handler.source_name handler.cluster_id log in
      elim (with_existing-posts type_id asked) [
        | inl e ↦ inl (e ∙ same)
        | inr h ↦ inr ((h.0.0, (type_id, ((log, h.0.1.0), h.0.1.1))), omega (arith, h.1, same))
      ]

  -- A check of the source sends no POST request, or the source is to be created, the API has found no
  -- source with its name and its cluster, none with its cluster, and none with its name, and the
  -- check sends two POST requests at most.
  pub source_get_or_create-posts :
      (log : List Request)
      → (posts (source_get_or_create api handler log).1 ≡ posts log)
        ⊎ (((handler.create_source ≡ true) × ((type_id : String) × WasFree type_id))
            × (posts (source_get_or_create api handler log).1 ≤ posts log + 2))
  unfolding source_get_or_create
  source_get_or_create-posts log =
      let same = get_source_type_id-posts log in
      elim (with_type-posts (get_source_type_id api log)) [
        | inl e ↦ inl (e ∙ same)
        | inr h ↦ inr (h.0, omega (arith, h.1, same))
      ]
