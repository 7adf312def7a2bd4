-- ===== src/Controller/Reconcile.antt =====
-- Reconcile of internal/controller/costmanagementmetricsconfig_controller.go: the order of its steps,
-- where it returns, and what it returns. A section's parameter gives the steps.
pub mod Preserved
pub mod World
pub mod Run
pub mod Ends
use koku_metrics_operator.Base.{
  ℕ, ◌*◌, String, Bool, true, false, not, Option, none, some, List, [], ◌∷◌, ◌++◌, Result, ok, err,
  if◌then◌else◌, ◌==◌, ◌&&◌,
}
use koku_metrics_operator.Base.Text.{join}
use koku_metrics_operator.Base.Time.{Time, day, minute, hour_of, truncate}
use koku_metrics_operator.Packaging.Package.{FilesAction, move_files, copy_files}
use koku_metrics_operator.Storage.Configure.{Configured, goes_on, returns_early, failed, panics}
use koku_metrics_operator.Controller.Session.{Ending, returns}
use koku_metrics_operator.Controller.Session
use koku_metrics_operator.Controller.Retention.{Loop, collect, hours_in_day}

-- The request of the resource: it is found, or gone, or cannot be read.
pub data Fetched : Type 0 where
  found gone : Fetched
  unread : String → Fetched

-- What Reconcile returns, the time of `RequeueAfter` if there is one, and the error; or it panics.
pub data Reconciled : Type 0 where
  finished : Option ℕ → Option String → Reconciled
  panicked : Reconciled

-- The steps of Reconcile on the world `W`, which is the resource, the objects of the API server, the
-- directories, and the variables of the controller that outlive a reconciliation.
pub record Steps (W : Type 0) : Type 0 where
  pub in_cluster : Bool
  pub fetch : W → Fetched
  pub reflect_spec : W → W
  pub configure_pvc : W → Configured × W
  pub set_cluster_id : W → Option String × W
  pub default_source_name : W → W
  pub reflect_commit : W → Bool × W
  pub check_config : W → Bool
  pub get_directory_config : W → Option String × W
  pub get_time_range : W → (Time × Time) × W
  pub new_packager : W → W
  pub report_files : W → Result String (List String)
  pub package_files : FilesAction → W → W
  pub get_prom_collector : W → Option String × W
  pub collect_prom_stats : Time → W → W × Bool
  pub initial_data_collection : W → Bool
  pub end_initial_collection : W → W
  pub package_files_with_cycle : FilesAction → W → W
  pub upload_toggle : W → Bool
  pub set_auth_and_upload : W → Ending × W
  pub trim_packages : W → Option String × W
  pub upload_files : W → Result String (List String)
  pub set_packaged_files : List String → W → W
  pub update_status : W → Option String × W

-- concatErrs
unfoldable pub concat_errs : List String → Option String
unfolding join
concat_errs [] = none
concat_errs (e ∷ errors) = some (join (e ∷ errors) "\n")

abbrev pub of_error : Option String → List String
of_error none = []
of_error (some e) = e ∷ []

-- The result is that of the first return, unless there is an error.
unfoldable pub result_of : List String → Reconciled
unfolding concat_errs
result_of [] = finished (some (5 * minute)) none
result_of (e ∷ errors) = finished none (concat_errs (e ∷ errors))

-- Reconcile up to the upload returns, with the world then, or is ready for the upload in a world.
pub data Progress (W : Type 0) : Type 0 where
  stopped : Reconciled → W → Progress W
  ready : W → Progress W

module _ {W : Type 0} (steps : Steps W) where
  -- The status is updated; an error of it is the last.
  unfoldable pub update_at_end : List String → Option String × W → Reconciled × W
  unfolding result_of
  update_at_end errors (e, w) = (result_of (errors ++ of_error e), w)

  listed : List String → Result String (List String) → W → Reconciled × W
  unfolding update_at_end
  listed errors (err e) w =
      update_at_end (errors ++ (e ∷ [])) (steps.update_status (steps.set_packaged_files [] w))
  listed errors (ok files) w =
      update_at_end errors (steps.update_status (steps.set_packaged_files files w))

  trimmed : List String → Option String × W → Reconciled × W
  unfolding listed
  trimmed errors (e, w) = listed (errors ++ of_error e) (steps.upload_files w) w

  uploaded : Ending × W → Reconciled × W
  unfolding trimmed
  uploaded (returns e, w) = trimmed (of_error e) (steps.trim_packages w)
  uploaded (Session.panics, w) = (panicked, w)

  -- From the upload to the end, in the world that it begins in.
  unfoldable pub upload_step : W → Reconciled × W
  unfolding uploaded trimmed
  upload_step w =
      if steps.upload_toggle w
      then uploaded (steps.set_auth_and_upload w)
      else trimmed [] (steps.trim_packages w)

  -- At the end of a day the reports are moved, so that nothing more is added to them.
  unfoldable pub package_step : Time → W → W
  package_step end_time w =
      if hour_of end_time == hours_in_day
      then steps.package_files move_files w
      else steps.package_files_with_cycle copy_files w

  loop_of : Time → W → Loop W
  loop_of end_time w = record {
    query = steps.collect_prom_stats;
    package_reports = steps.package_files move_files;
    initial_data_collection = steps.initial_data_collection w;
    end_time = end_time;
  }

  -- The loops over days and hours, and then packaging.
  collect_step : Time → Time → W → W
  unfolding loop_of collect package_step
  collect_step start_time end_time w =
      package_step end_time
        (steps.end_initial_collection (collect (loop_of end_time w) start_time w))

  -- An error on the way: the status is updated, and the error of that is logged.
  give_up : String → W → Progress W
  give_up e w = stopped (finished none (some e)) (steps.update_status w).1

  with_collector : Time → Time → Option String × W → Progress W
  unfolding give_up collect_step
  with_collector start_time end_time (some e, w) = give_up e w
  with_collector start_time end_time (none, w) = ready (collect_step start_time end_time w)

  has_files : Result String (List String) → Bool
  has_files (err e) = false
  has_files (ok []) = false
  has_files (ok (file ∷ files)) = true

  -- After an upgrade the reports that are there are packaged, and the day is collected again.
  package_old : Bool → Time × W → Time × W
  unfolding has_files
  package_old new_install (start_time, w) =
      if new_install && has_files (steps.report_files w)
      then (truncate start_time day, steps.package_files move_files w)
      else (start_time, w)

  with_range : Bool → (Time × Time) × W → Progress W
  unfolding package_old with_collector
  with_range new_install ((start_time, end_time), w) =
      let (start_time', w') = package_old new_install (start_time, steps.new_packager w) in
      with_collector start_time' end_time (steps.get_prom_collector w')

  with_directories : Bool → Option String × W → Progress W
  unfolding with_range
  with_directories new_install (some e, w) = stopped (finished none (some e)) w
  with_directories new_install (none, w) = with_range new_install (steps.get_time_range w)

  with_commit : Bool × W → Progress W
  unfolding with_directories
  with_commit (new_install, w) =
      with_directories new_install
        (if steps.check_config w then (none, w) else steps.get_directory_config w)

  with_cluster_id : Option String × W → Progress W
  unfolding with_commit give_up
  with_cluster_id (some e, w) = give_up e w
  with_cluster_id (none, w) = with_commit (steps.reflect_commit (steps.default_source_name w))

  with_volume : Configured × W → Progress W
  unfolding with_cluster_id
  with_volume (goes_on, w) = with_cluster_id (steps.set_cluster_id w)
  with_volume (returns_early, w) = stopped (finished none none) w
  with_volume (failed e, w) = stopped (finished none (some e)) w
  with_volume (panics, w) = stopped panicked w

  with_resource : Fetched → W → Progress W
  unfolding with_volume with_cluster_id
  with_resource gone w = stopped (finished none none) w
  with_resource (unread e) w = stopped (finished none (some e)) w
  with_resource found w =
      let w' = steps.reflect_spec w in
      if steps.in_cluster
      then with_volume (steps.configure_pvc w')
      else with_cluster_id (steps.set_cluster_id w')

  -- Reconcile up to the upload.
  unfoldable pub before_upload : W → Progress W
  unfolding with_resource
  before_upload w = with_resource (steps.fetch w) w

  from_upload : Progress W → Reconciled × W
  unfolding upload_step
  from_upload (stopped r w) = (r, w)
  from_upload (ready w) = upload_step w

  -- Reconcile
  unfoldable pub reconcile : W → Reconciled × W
  unfolding before_upload from_upload
  reconcile w = from_upload (before_upload w)
