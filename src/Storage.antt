-- ===== src/Storage.antt =====
-- internal/storage/storage.go: the volume of the reports is one of a
-- claim. The specification of a claim is a text here, and so is how a source of a volume is printed.
-- The state is what the API server holds; its calls that fail are arguments.
pub mod Finding
pub mod Settles
pub mod Configure
use koku_metrics_operator.Base.{
  ℕ, zero, suc, String, ◌<>◌, str_eq, Bool, true, false, ◌||◌, Option, none, some, List, [], ◌∷◌,
  Result, ok, err, set, elem, if◌then◌else◌,
}
use koku_metrics_operator.Base.Text.{contains}
use koku_metrics_operator.Base.Dict.{lookup, insert}

-- The names of the build whose prefix is koku.
abbrev pub deployment_name : String
deployment_name = "koku-metrics-operator"

abbrev pub volume_mount_name : String
volume_mount_name = "koku-metrics-operator-reports"

abbrev pub volume_claim_name : String
volume_claim_name = "koku-metrics-operator-data"

-- EmbeddedPersistentVolumeClaim
pub record EmbeddedClaim : Type 0 where
  pub api_version : String
  pub kind : String
  pub name : String
  pub labels : List (String × String)
  pub annotations : List (String × String)
  pub spec : String

-- PersistentVolumeClaim
pub record Claim : Type 0 where
  pub api_version : String
  pub kind : String
  pub name : String
  pub namespace : String
  pub labels : List (String × String)
  pub annotations : List (String × String)
  pub spec : String

-- DefaultPVC; its specification is ReadWriteOnce with ten gibibytes.
abbrev pub default_pvc : String → EmbeddedClaim
default_pvc spec = record {
  api_version = "v1";
  kind = "PersistentVolumeClaim";
  name = volume_claim_name;
  labels = ("application", "koku-metrics-operator") ∷ [];
  annotations = [];
  spec = spec;
}

unfoldable pub make_volume_claim_template : EmbeddedClaim → String → Claim
make_volume_claim_template e namespace = record {
  api_version = e.api_version;
  kind = e.kind;
  name = e.name;
  namespace = namespace;
  labels = e.labels;
  annotations = e.annotations;
  spec = e.spec;
}

-- MakeEmbeddedPVC
unfoldable pub make_embedded_pvc : Claim → EmbeddedClaim
make_embedded_pvc pvc = record {
  api_version = pvc.api_version;
  kind = pvc.kind;
  name = pvc.name;
  labels = [];
  annotations = [];
  spec = pvc.spec;
}

-- A volume: how its empty directory is printed, and its claim, if it has them, and its other sources.
pub record Volume : Type 0 where
  pub name : String
  pub empty_dir : Option String
  pub claim_name : Option String
  pub others : String

-- What the API server holds: the owners and the volumes of the deployment, the volumes of the first
-- deployment of each ClusterServiceVersion, if it has one, and the claims by their names.
pub record Cluster : Type 0 where
  pub owners : List String
  pub volumes : List Volume
  pub versions : List (String × Option (List Volume))
  pub claims : List (String × Claim)

-- The storage part of the status.
pub record StorageStatus : Type 0 where
  pub volume_type : String
  pub volume_mounted : Bool
  pub persistent_volume_claim : Option EmbeddedClaim

pub record StorageEnv : Type 0 where
  pub get_deployment : Option String
  pub get_version : String → Option String
  pub get_claim : String → Option String
  pub create_claim : String → Option String
  pub patch : Option String
  pub claim_string : String → String

-- An error, or a panic: of a version without a deployment, or with fewer volumes than the deployment.
pub data StorageError : Type 0 where
  failure : String → StorageError
  panicked : StorageError

-- The volume of the reports with its index.
unfoldable pub find_volume : List Volume → Option (ℕ × Volume)
find_volume [] = none
find_volume (v ∷ vols) =
    let further = find_volume vols in
    if str_eq v.name volume_mount_name
    then some (0, v)
    else (elim further [ none ↦ none | some (i, w) ↦ some (suc i, w) ])

-- `vols[i] = v`, if the index is not out of range.
abbrev pub replace : List Volume → ℕ → Volume → Option (List Volume)
replace [] i v = none
replace (w ∷ vols) zero v = some (v ∷ vols)
replace (w ∷ vols) (suc i) v = elim (replace vols i v) [ none ↦ none | some rest ↦ some (w ∷ rest) ]

abbrev pub mounted_on : String → Option String → Bool
mounted_on name none = false
mounted_on name (some claim) = str_eq claim name

module _ (env : StorageEnv) where
  -- getVolume: the type of the volume in the status.
  unfoldable pub volume_type_of : Volume → String → String
  volume_type_of v before = elim v.claim_name [
    | some name ↦ env.claim_string name
    | none ↦ elim v.empty_dir [ some dir ↦ dir | none ↦ before ]
  ]

  -- Reading a claim: an error, which may be that there is none.
  unfoldable pub read_claim : String → Cluster → Result String Claim
  unfolding lookup
  read_claim name c = elim (env.get_claim name) [
    | some e ↦ err e
    | none ↦ elim (lookup name c.claims) [ none ↦ err "not found" | some claim ↦ ok claim ]
  ]

  create_unless : Result String Claim → Option String → Claim → Cluster → Result String Cluster
  unfolding insert
  create_unless (ok claim) e pvc c = ok c
  create_unless (err e) (some e') pvc c = err e'
  create_unless (err e) none pvc c = ok (record c { claims = insert pvc.name pvc c.claims })

  -- getOrCreateVolume
  unfoldable pub get_or_create_volume : Claim → Cluster → Result String Cluster
  unfolding read_claim create_unless
  get_or_create_volume pvc c =
      create_unless (read_claim pvc.name c) (env.create_claim pvc.name) pvc c

  version_volumes :
      Option String → Option (Option (List Volume)) → Result StorageError (List Volume)
  version_volumes (some e) found = err (failure ("unable to get ClusterServiceVersion: " <> e))
  version_volumes none none = err (failure "unable to get ClusterServiceVersion: not found")
  version_volumes none (some none) = err panicked
  version_volumes none (some (some vols)) = ok vols

  volumes_of : List String → Cluster → Result StorageError (List Volume)
  unfolding version_volumes lookup
  volumes_of [] c = ok c.volumes
  volumes_of (owner ∷ owners) c = version_volumes (env.get_version owner) (lookup owner c.versions)

  -- The volumes of the specification that is patched: those of the owning version, or those of the
  -- deployment.
  unfoldable pub spec_volumes : Cluster → Result StorageError (List Volume)
  unfolding volumes_of
  spec_volumes c = volumes_of c.owners c

  put_in : List String → List Volume → Cluster → Cluster
  unfolding insert
  put_in [] vols c = record c { volumes = vols }
  put_in (owner ∷ owners) vols c = record c { versions = insert owner (some vols) c.versions }

  unfoldable pub put_volumes : List Volume → Cluster → Cluster
  unfolding put_in
  put_volumes vols c = put_in c.owners vols c

  patched : Option String → Option (List Volume) → Cluster → Result StorageError Bool × Cluster
  unfolding put_volumes
  patched e none c = (err panicked, c)
  patched (some e) (some vols) c = (err (failure ("failed to Patch: " <> e)), c)
  patched none (some vols) c = (ok true, put_volumes vols c)

  -- mountVolume: the volume at the index that it has in the deployment becomes one of the claim.
  unfoldable pub mount_volume :
      Claim → ℕ → Volume → List Volume → Cluster → Result StorageError Bool × Cluster
  unfolding patched
  mount_volume pvc i v vols c =
      patched env.patch (replace vols i (record v { empty_dir = none; claim_name = some pvc.name }))
        c

  after_claim :
      Claim
      → ℕ
      → Volume
      → List Volume
      → Result String Cluster
      → Cluster
      → Result StorageError Bool × Cluster
  after_claim pvc i v vols (err e) c = (err (failure ("failed to get or create PVC: " <> e)), c)
  after_claim pvc i v vols (ok c') c = mount_volume pvc i v vols c'

  -- The steps of ConvertVolume behind getVolume.
  convert_found :
      Claim
      → List Volume
      → Option (ℕ × Volume)
      → StorageStatus
      → Cluster
      → Result StorageError Bool × (StorageStatus × Cluster)
  convert_found pvc vols none st c = (err (failure "volume not found"), (st, c))
  convert_found pvc vols (some (i, v)) st c =
      let st' = record st { volume_type = volume_type_of v st.volume_type } in
      if mounted_on pvc.name v.claim_name
      then (ok false, (record st' { volume_mounted = true }, c))
      else (let (r, c') = after_claim pvc i v vols (get_or_create_volume pvc c) c in (r, (st', c')))

  convert_spec :
      Claim
      → Result StorageError (List Volume)
      → StorageStatus
      → Cluster
      → Result StorageError Bool × (StorageStatus × Cluster)
  convert_spec pvc (err e) st c = (err e, (st, c))
  convert_spec pvc (ok vols) st c = convert_found pvc vols (find_volume c.volumes) st c

  with_deployment :
      Option String
      → StorageStatus × Cluster
      → Result StorageError Bool × (StorageStatus × Cluster)
      → Result StorageError Bool × (StorageStatus × Cluster)
  with_deployment (some e) w rest = (err (failure ("unable to get Deployment: " <> e)), w)
  with_deployment none w rest = rest

  -- ConvertVolume: whether the volume was converted.
  unfoldable pub convert_volume :
      Claim → StorageStatus → Cluster → Result StorageError Bool × (StorageStatus × Cluster)
  unfolding with_deployment convert_spec convert_found after_claim get_or_create_volume mount_volume
      spec_volumes find_volume volume_type_of
  convert_volume pvc st c =
      with_deployment env.get_deployment (st, c) (convert_spec pvc (spec_volumes c) st c)
