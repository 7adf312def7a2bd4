-- ===== src/Sources.antt =====
-- The check of the source with the Sources API: internal/sources/handler.go. The API, the requests'
-- construction and the JSON decoding are parameters; the state is the requests that were sent, the
-- last first. The time of the check, which is the present time on every path, is left out.
pub mod Defined
pub mod Posts
use koku_metrics_operator.Base.{
  ℕ, String, ◌<>◌, str_eq, Bool, true, false, not, Option, none, some, List, [], ◌∷◌, ◌++◌, Result,
  ok, err, if◌then◌else◌, ◌==◌,
}

-- SourceTypeDataItem and ApplicationTypeDataItem
pub record TypeItem : Type 0 where
  pub id : String
  pub name : String

pub record SourceItem : Type 0 where
  pub id : String
  pub name : String
  pub source_type_id : String
  pub source_ref : String

-- The paginated responses.
pub record Response (A : Type 0) : Type 0 where
  pub count : ℕ
  pub items : List A

-- sourceGetReq and sourcePostReq: the endpoint, and the queries or the values. A request without a
-- query differs from one with an empty query.
pub data Request : Type 0 where
  get_request : String → List (String × String) → Request
  json_request : String → List (String × String) → Request

-- The first element of an empty list is a panic.
pub data SourceError : Type 0 where
  failure : String → SourceError
  panicked : SourceError

-- What answers a request after other requests, and the decoders of the answers.
pub record Api : Type 0 where
  pub send : List Request → Request → Result String String
  pub unmarshal_types : String → Result String (Response TypeItem)
  pub unmarshal_sources : String → Result String (Response SourceItem)
  pub unmarshal_source : String → Result String SourceItem

-- SourceHandler; `create_source` is what the pointer refers to.
pub record SourceHandler : Type 0 where
  pub source_name : String
  pub cluster_id : String
  pub create_source : Bool

-- The source is defined, or there is an error.
pub record Checked : Type 0 where
  pub defined : Bool
  pub error : Option SourceError

module _ (api : Api) where
  abbrev pub Step : Type 0 → Type 0
  Step A = Result SourceError A × List Request

  -- getRequest or jsonRequest
  do_request : Request → List Request → Result String String × List Request
  do_request r log = (api.send log r, r ∷ log)

  -- `Data[0].ID`, if the count is 1.
  type_id_of : String → Result String (Response TypeItem) → Result SourceError String
  type_id_of errors (err e) = err (failure e)
  type_id_of errors (ok data_) =
      if data_.count == 1
      then (elim data_.items [ [] ↦ err panicked | item ∷ items ↦ ok item.id ])
      else err (failure errors)

  read_type_id : String → Result String String × List Request → Step String
  unfolding type_id_of
  read_type_id errors (err e, log) = (err (failure e), log)
  read_type_id errors (ok body, log) = (type_id_of errors (api.unmarshal_types body), log)

  -- GetSourceTypeID
  unfoldable pub get_source_type_id : List Request → Step String
  unfolding read_type_id do_request
  get_source_type_id log =
      read_type_id "failed to obtain the source type ID for OpenShift"
        (do_request (get_request "source_types" (("filter[name]", "openshift") ∷ [])) log)

  -- GetApplicationTypeID
  unfoldable pub get_application_type_id : List Request → Step String
  unfolding read_type_id do_request
  get_application_type_id log =
      read_type_id "failed to obtain the application type ID for Cost Management" (
        do_request
          (get_request "application_types"
            (("filter[name]", "/insights/platform/cost-management") ∷ []))
          log)

  -- A query that is not empty.
  given : String → String → List (String × String)
  given key value = if str_eq value "" then [] else (key, value) ∷ []

  source_of : Result String (Response SourceItem) → Result SourceError (Option SourceItem)
  source_of (err e) = err (failure e)
  source_of (ok data_) =
      if data_.count == 1
      then (elim data_.items [ [] ↦ err panicked | item ∷ items ↦ ok (some item) ])
      else ok none

  read_source : Result String String × List Request → Step (Option SourceItem)
  unfolding source_of
  read_source (err e, log) = (err (failure e), log)
  read_source (ok body, log) = (source_of (api.unmarshal_sources body), log)

  -- CheckSourceExists
  unfoldable pub check_source_exists :
      String → String → String → List Request → Step (Option SourceItem)
  unfolding read_source do_request given
  check_source_exists source_type_id name source_ref log = read_source (
      do_request
        (get_request "sources" (
          given "filter[name]" name
          ++ given "filter[source_ref]" source_ref
          ++ given "filter[source_type_id]" source_type_id))
        log)

  module _ (handler : SourceHandler) where
    read_posted : Result String String × List Request → Step SourceItem
    read_posted (err e, log) = (err (failure e), log)
    read_posted (ok body, log) =
        (elim (api.unmarshal_source body) [ err e ↦ err (failure e) | ok item ↦ ok item ], log)

    -- PostSource
    post_source : String → List Request → Step SourceItem
    unfolding read_posted do_request
    post_source source_type_id log = read_posted (
        do_request
          (json_request "sources" (
            ("source_type_id", source_type_id)
            ∷ ("name", handler.source_name)
            ∷ ("source_ref", handler.cluster_id)
            ∷ []))
          log)

    ignore_body : Result String String × List Request → Step (Unit {0})
    ignore_body (err e, log) = (err (failure e), log)
    ignore_body (ok body, log) = (ok tt, log)

    -- PostApplication
    post_application : SourceItem → String → List Request → Step (Unit {0})
    unfolding ignore_body do_request
    post_application source app_type_id log = ignore_body (
        do_request
          (json_request "applications"
            (("source_id", source.id) ∷ ("application_type_id", app_type_id) ∷ []))
          log)

    associate : String → Step SourceItem → Step (Unit {0})
    unfolding post_application
    associate app_type_id (err e, log) = (err e, log)
    associate app_type_id (ok source, log) = post_application source app_type_id log

    create_with : String → Step String → Step (Unit {0})
    unfolding associate post_source
    create_with source_type_id (err e, log) = (err e, log)
    create_with source_type_id (ok app_type_id, log) =
        associate app_type_id (post_source source_type_id log)

    -- SourceCreate, of which only the error is used.
    unfoldable pub source_create : String → List Request → Step (Unit {0})
    unfolding create_with get_application_type_id
    source_create source_type_id log = create_with source_type_id (get_application_type_id log)

    refused : SourceError → List Request → Checked × List Request
    refused e log = (record { defined = false; error = some e }, log)

    created : Step (Unit {0}) → Checked × List Request
    unfolding refused
    created (err e, log) = refused e log
    created (ok _, log) = (record { defined = true; error = none }, log)

    name_taken : String → SourceItem → String
    name_taken type_id source =
        if str_eq source.source_type_id type_id
        then "An OpenShift source with name "
          <> (handler.source_name
              <> (" is registered with a different cluster identifier of "
                  <> (source.source_ref
                      <> ". Another cluster may already be registered with this name. Source names must be unique.")))
        else "A non-OpenShift source with name "
          <> (handler.source_name <> " is already registered. Source names must be unique.")

    with_same_name : String → Step (Option SourceItem) → Checked × List Request
    unfolding refused created name_taken source_create
    with_same_name type_id (err e, log) = refused e log
    with_same_name type_id (ok (some source), log) =
        refused (failure (name_taken type_id source)) log
    with_same_name type_id (ok none, log) = created (source_create type_id log)

    with_same_cluster : String → Step (Option SourceItem) → Checked × List Request
    unfolding refused with_same_name check_source_exists
    with_same_cluster type_id (err e, log) = refused e log
    with_same_cluster type_id (ok (some source), log) =
        refused
          (failure (
            "This cluster may already be registered because an OpenShift source with Cluster ID "
            <> (handler.cluster_id
                <> (" is already registered with a different name (" <> (source.name <> ").")))))
          log
    with_same_cluster type_id (ok none, log) =
        with_same_name type_id (check_source_exists "" handler.source_name "" log)

    with_existing : String → Step (Option SourceItem) → Checked × List Request
    unfolding refused with_same_cluster check_source_exists
    with_existing type_id (err e, log) = refused e log
    with_existing type_id (ok (some source), log) = (record { defined = true; error = none }, log)
    with_existing type_id (ok none, log) =
        if handler.create_source
        then with_same_cluster type_id (check_source_exists type_id "" handler.cluster_id log)
        else refused
            (failure (
              "No OpenShift source registered with name "
              <> (handler.source_name <> (" and Cluster ID " <> (handler.cluster_id <> ".")))))
            log

    with_type : Step String → Checked × List Request
    unfolding refused with_existing check_source_exists
    with_type (err e, log) = refused e log
    with_type (ok type_id, log) =
        with_existing type_id
          (check_source_exists type_id handler.source_name handler.cluster_id log)

    -- SourceGetOrCreate
    unfoldable pub source_get_or_create : List Request → Checked × List Request
    unfolding with_type get_source_type_id
    source_get_or_create log = with_type (get_source_type_id log)
