-- ===== src/Storage/Configure.antt =====
-- configurePVC of internal/controller/costmanagementmetricsconfig_controller.go.
use koku_metrics_operator.Base.{
  String, ◌<>◌, Bool, true, false, Option, none, some, Result, ok, err, if◌then◌else◌,
}
use koku_metrics_operator.Base.Text.{contains}
use koku_metrics_operator.Storage.{
  EmbeddedClaim, Claim, Cluster, StorageStatus, StorageEnv, StorageError, failure, panicked,
  default_pvc, make_volume_claim_template, make_embedded_pvc, read_claim, convert_volume,
}

-- The reconciler goes on, or returns without an error, or with one, or panics.
pub data Configured : Type 0 where
  goes_on returns_early : Configured
  failed : String → Configured
  panics : Configured

module _ (env : StorageEnv) where
  read_status : Result String Claim → StorageStatus → Configured × StorageStatus
  unfolding make_embedded_pvc contains
  read_status (err e) st = (failed ("failed to get PVC name: " <> e), st)
  read_status (ok claim) st =
      let st' = record st { persistent_volume_claim = some (make_embedded_pvc claim) } in
      if contains st.volume_type "EmptyDir"
      then (failed "PVC not mounted", record st' { volume_mounted = false })
      else (goes_on, st')

  after_conversion :
      String
      → Result StorageError Bool × (StorageStatus × Cluster)
      → Configured × (StorageStatus × Cluster)
  after_conversion name (err (failure e), w) = (failed ("failed to mount on PVC: " <> e), w)
  after_conversion name (err panicked, w) = (panics, w)
  after_conversion name (ok true, w) = (returns_early, w)
  after_conversion name (ok false, (st, c)) =
      let (r, st') = read_status (read_claim env name c) st in (r, (st', c))

  abbrev template_or_default : String → Option EmbeddedClaim → EmbeddedClaim
  template_or_default spec none = default_pvc spec
  template_or_default spec (some e) = e

  -- configurePVC, with the claim of the specification, if it has one, and the default's specification.
  unfoldable pub configure_pvc :
      String
      → Option EmbeddedClaim
      → String
      → StorageStatus
      → Cluster
      → Configured × (StorageStatus × Cluster)
  unfolding after_conversion read_status convert_volume make_volume_claim_template read_claim
  configure_pvc spec template namespace st c =
      let e = template_or_default spec template in
      after_conversion e.name (convert_volume env (make_volume_claim_template e namespace) st c)
