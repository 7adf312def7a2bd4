-- ===== src/Tests/Volumes.antt =====
-- The theorem on the conversion of the volume, applied to a deployment of a ClusterServiceVersion.
use koku_metrics_operator.Base.{true, false, none, some, List, [], ◌∷◌, ◌≡◌, refl, ok, ◌<>◌}
use koku_metrics_operator.Storage.{
  Claim, Volume, Cluster, StorageStatus, StorageEnv, default_pvc, make_volume_claim_template,
  convert_volume,
}
use koku_metrics_operator.Storage.Settles.{Settled, convert_volume-settles}
use koku_metrics_operator.Storage.Configure.{returns_early, configure_pvc}

abbrev pub storage_env : StorageEnv
storage_env = record {
  get_deployment = none;
  get_version = λ name. none;
  get_claim = λ name. none;
  create_claim = λ name. none;
  patch = none;
  claim_string = λ name. "&PersistentVolumeClaimVolumeSource{ClaimName:" <> (name <> ",}");
}

abbrev two_volumes : List Volume
two_volumes =
    record { name = "certs"; empty_dir = none; claim_name = none; others = "secret" }
    ∷ record {
      name = "koku-metrics-operator-reports";
      empty_dir = some "&EmptyDirVolumeSource{}";
      claim_name = none;
      others = "";
    }
    ∷ []

abbrev pub installed : Cluster
installed = record {
  owners = "koku-metrics-operator.v1" ∷ [];
  volumes = two_volumes;
  versions = ("koku-metrics-operator.v1", some two_volumes) ∷ [];
  claims = [];
}

abbrev pub unmounted : StorageStatus
unmounted = record { volume_type = ""; volume_mounted = false; persistent_volume_claim = none }

abbrev some_claim : Claim
some_claim = make_volume_claim_template (default_pvc "10Gi") "koku"

converts : (convert_volume storage_env some_claim unmounted installed).0 ≡ ok true
unfolding convert_volume
converts = refl

configures_early :
    (configure_pvc storage_env "10Gi" none "koku" unmounted installed).0 ≡ returns_early
unfolding configure_pvc
configures_early = refl

convert_volume-settles_example :
    Settled storage_env some_claim
      (convert_volume storage_env some_claim unmounted installed).1.0
      (convert_volume storage_env some_claim unmounted installed).1.1
unfolding koku_metrics_operator.Storage.spec_volumes
convert_volume-settles_example =
    convert_volume-settles storage_env some_claim unmounted installed refl refl converts
