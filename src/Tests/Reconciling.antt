-- ===== src/Tests/Reconciling.antt =====
-- The theorems on Reconcile, applied to an operator that has two packages to upload.
use koku_metrics_operator.Base.{ℕ, ◌*◌, true, false, none, some, [], ◌∷◌, ◌≡◌, refl, ◌⊎◌, ok}
use koku_metrics_operator.Base.Time.{minute, utc}
use koku_metrics_operator.Controller.Reflect.{Spec}
use koku_metrics_operator.Controller.Reconcile.{found, finished, reconcile}
use koku_metrics_operator.Controller.Reconcile.Ends.{IsEnd, reconcile-IsEnd}
use koku_metrics_operator.Controller.Reconcile.Preserved.{Uploading}
use koku_metrics_operator.Controller.Reconcile.World.{OperatorEnv, World, is_true}
use koku_metrics_operator.Controller.Reconcile.Run.{steps_of}
use koku_metrics_operator.Controller.Reconcile.Run.Sends.{SameSent, IsCleared, reconcile-SameSent}
use koku_metrics_operator.Tests.Uploads.{session_env, first_session}
use koku_metrics_operator.Tests.Volumes.{storage_env, installed, unmounted}
use koku_metrics_operator.Tests.Gathering.{one_node, old_report}
use koku_metrics_operator.Tests.Packages.{some_env, failed_before}
use koku_metrics_operator.Tests.Settings
use koku_metrics_operator.Tests.Settings.{some_spec, empty_status, unconnected}
use koku_metrics_operator.Tests.Schedule.{some_monitoring, new_resource, fresh}
use koku_metrics_operator.Tests.Directories.{some_config, all_directories}

abbrev operator : OperatorEnv ℕ
operator = record {
  in_cluster = false;
  fetched = found;
  random = 7;
  storage = storage_env;
  claim_spec = "10Gi";
  claim = none;
  namespace = "koku";
  cluster_versions = ok (record { cluster_id = "abc"; channel = "stable-4.18" } ∷ []);
  git_commit = some "1";
  fs = some_env.fs;
  monitoring = some_monitoring;
  now = 1000 * minute;
  packaging = some_env;
  setters = Settings.working;
  reports = one_node;
  session = session_env;
  remove_error = λ file. none;
  update_error = none;
}

abbrev connected_spec : Spec
connected_spec = record some_spec {
  upload_toggle = some true;
  disable_cost_management = some true;
  disable_resource_optimization = some true;
}

abbrev first_world : World
first_world = record {
  spec = connected_spec;
  status = empty_status;
  volume = unmounted;
  cluster = installed;
  identity = record { cluster_id = ""; cluster_version = ""; operator_commit = "1" };
  git_commit = "";
  dir_cfg = some_config;
  range = record new_resource { collect_previous_data = none };
  start_location = utc;
  connection = unconnected;
  prom = fresh;
  gathered = old_report;
  packing = failed_before;
  dirs = record {
    existing = all_directories;
    reports = [];
    staging = [];
    upload =
        record { name = "a.tar.gz"; entries = [] }
        ∷ record { name = "b.tar.gz"; entries = [] }
        ∷ [];
  };
  report_count = none;
  packaged_files = [];
  session = first_session;
}

-- In a cluster the volume is converted first, and the reconciliation ends there without an error.
converts_first :
    (reconcile (steps_of (record operator { in_cluster = true })) first_world).0
    ≡ finished none none
unfolding reconcile steps_of koku_metrics_operator.Storage.Configure.configure_pvc
converts_first = refl

reconcile-IsEnd_example : IsEnd (steps_of operator) (reconcile (steps_of operator) first_world)
reconcile-IsEnd_example = reconcile-IsEnd (steps_of operator) first_world

reconcile-SameSent_example :
    (let w' = (reconcile (steps_of operator) first_world).1 in
      (w'.session.uploads.sent ≡ first_world.session.uploads.sent)
      ⊎ ((is_true first_world.spec.upload_toggle ≡ true)
          × Uploading (steps_of operator) SameSent (IsCleared operator) first_world))
reconcile-SameSent_example = reconcile-SameSent operator first_world
