-- ===== src/Controller/Reconcile/Preserved.antt =====
-- What Reconcile keeps, if its steps but the upload keep it.
use koku_metrics_operator.Base.{
  String, Bool, true, false, if◌then◌else◌, ◌≡◌, refl, ◌⊎◌, inl, inr, Option, none, some, List, [],
  ◌++◌, Result, ok, err, ◌&&◌, ◌==◌, Bool-cases,
}
use koku_metrics_operator.Base.Time.{Time, hour_of}
use koku_metrics_operator.Packaging.Package.{FilesAction, move_files, copy_files}
use koku_metrics_operator.Storage.Configure.{Configured, goes_on, returns_early, failed, panics}
use koku_metrics_operator.Controller.Session.{Ending, returns}
use koku_metrics_operator.Controller.Session
use koku_metrics_operator.Controller.Retention.{hours_in_day}
use koku_metrics_operator.Controller.Retention.Preserved.{collect-R}
use koku_metrics_operator.Controller.Reconcile.{
  Progress, stopped, ready, before_upload, from_upload, Fetched, found, gone, unread, Steps,
  of_error, update_at_end, listed, trimmed, uploaded, upload_step, package_step, loop_of,
  collect_step, give_up, with_collector, has_files, package_old, with_range, with_directories,
  with_commit, with_cluster_id, with_volume, with_resource, reconcile,
}

-- A relation that holds between the worlds before and after each step; an upload may break it in a
-- world in which `Allowed` holds.
pub record Preserves {W : Type 0} (steps : Steps W) (R : W → W → Type 0) (Allowed : W → Type 0)
    : Type 0 where
  pub R_refl : (w : W) → R w w
  pub R_trans : (u v w : W) → R u v → R v w → R u w
  pub by_reflect : (w : W) → R w (steps.reflect_spec w)
  pub by_volume : (w : W) → R w (steps.configure_pvc w).1
  pub by_cluster : (w : W) → R w (steps.set_cluster_id w).1
  pub by_source_name : (w : W) → R w (steps.default_source_name w)
  pub by_commit : (w : W) → R w (steps.reflect_commit w).1
  pub by_directories : (w : W) → R w (steps.get_directory_config w).1
  pub by_range : (w : W) → R w (steps.get_time_range w).1
  pub by_packager : (w : W) → R w (steps.new_packager w)
  pub by_package : (action : FilesAction) (w : W) → R w (steps.package_files action w)
  pub by_collector : (w : W) → R w (steps.get_prom_collector w).1
  pub by_query : (t : Time) (w : W) → R w (steps.collect_prom_stats t w).0
  pub by_end : (w : W) → R w (steps.end_initial_collection w)
  pub by_package_cycle :
      (action : FilesAction) (w : W) → R w (steps.package_files_with_cycle action w)
  pub by_trim : (w : W) → R w (steps.trim_packages w).1
  pub by_packaged : (files : List String) (w : W) → R w (steps.set_packaged_files files w)
  pub by_update : (w : W) → R w (steps.update_status w).1
  pub by_upload : (w : W) → (R w (steps.set_auth_and_upload w).1) ⊎ (Allowed w)

-- This reconciliation comes to the upload in a world, in which it is switched on and allowed.
pub record Uploading {W : Type 0} (steps : Steps W) (R : W → W → Type 0) (Allowed : W → Type 0)
    (u : W) : Type 0 where
  pub world : W
  pub prepared : before_upload steps u ≡ ready world
  pub kept : R u world
  pub switched_on : steps.upload_toggle world ≡ true
  pub allowed : Allowed world

module _ {W : Type 0} (steps : Steps W) (R : W → W → Type 0) (Allowed : W → Type 0)
    (h : Preserves steps R Allowed) where
  packaged-R :
      (files : List String) (w : W) → R w (steps.update_status (steps.set_packaged_files files w)).1
  packaged-R files w = h.R_trans w _ _ (h.by_packaged files w) (h.by_update _)

  listed-R :
      (errors : List String) (r : Result String (List String)) (w : W)
      → R w (listed steps errors r w).1
  unfolding listed update_at_end
  listed-R errors (err e) w = packaged-R [] w
  listed-R errors (ok files) w = packaged-R files w

  trimmed-R : (errors : List String) (w : W) → R w (trimmed steps errors (steps.trim_packages w)).1
  unfolding trimmed
  trimmed-R errors w = h.R_trans w _ _ (h.by_trim w) (
      listed-R (errors ++ of_error (steps.trim_packages w).0)
        (steps.upload_files (steps.trim_packages w).1) (steps.trim_packages w).1)

  uploaded-R : (p : Ending × W) → R p.1 (uploaded steps p).1
  unfolding uploaded
  uploaded-R (returns e, w) = trimmed-R (of_error e) w
  uploaded-R (Session.panics, w) = h.R_refl w

  -- The upload and what follows, from a world that is ready for it.
  upload_step-Kept :
      (w : W) → (R w (upload_step steps w).1) ⊎ ((steps.upload_toggle w ≡ true) × Allowed w)
  unfolding upload_step
  upload_step-Kept w = elim (Bool-cases (steps.upload_toggle w)) [
    | inr e ↦ rw e (inl (trimmed-R [] w))
    | inl e ↦ elim (h.by_upload w) [
      | inl p ↦ rw e (inl (h.R_trans w _ _ p (uploaded-R (steps.set_auth_and_upload w))))
      | inr p ↦ inr (e, p)
    ]
  ]

  package_step-R : (end_time : Time) (w : W) → R w (package_step steps end_time w)
  unfolding package_step
  package_step-R end_time w = elim (Bool-cases (hour_of end_time == hours_in_day)) [
    | inl e ↦ rw e (h.by_package move_files w)
    | inr e ↦ rw e (h.by_package_cycle copy_files w)
  ]

  collect_step-R :
      (start_time end_time : Time) (w : W) → R w (collect_step steps start_time end_time w)
  unfolding collect_step loop_of
  collect_step-R start_time end_time w =
      h.R_trans w _ _
        (collect-R (loop_of steps end_time w) R h.R_refl h.R_trans h.by_query
          (h.by_package move_files) start_time w)
        (h.R_trans _ _ _ (h.by_end _) (package_step-R end_time _))

  abbrev world_of : Progress W → W
  world_of (stopped r w) = w
  world_of (ready w) = w

  with_collector-R :
      (start_time end_time : Time) (p : Option String × W)
      → R p.1 (world_of (with_collector steps start_time end_time p))
  unfolding with_collector give_up
  with_collector-R start_time end_time (some e, w) = h.by_update w
  with_collector-R start_time end_time (none, w) = collect_step-R start_time end_time w

  package_old-R :
      (new_install : Bool) (start_time : Time) (w : W)
      → R w (package_old steps new_install (start_time, w)).1
  unfolding package_old
  package_old-R new_install start_time w =
      elim (Bool-cases (new_install && has_files steps (steps.report_files w))) [
        | inl e ↦ rw e (h.by_package move_files w)
        | inr e ↦ rw e (h.R_refl w)
      ]

  with_range-R :
      (new_install : Bool) (p : (Time × Time) × W)
      → R p.1 (world_of (with_range steps new_install p))
  unfolding with_range
  with_range-R new_install ((start_time, end_time), w) =
      let old = package_old steps new_install (start_time, steps.new_packager w) in
      h.R_trans w _ _ (h.R_trans w _ _ (h.by_packager w) (package_old-R new_install start_time _)) (
        h.R_trans old.1 _ _ (h.by_collector old.1)
          (with_collector-R old.0 end_time (steps.get_prom_collector old.1)))

  with_directories-R :
      (new_install : Bool) (p : Option String × W)
      → R p.1 (world_of (with_directories steps new_install p))
  unfolding with_directories
  with_directories-R new_install (some e, w) = h.R_refl w
  with_directories-R new_install (none, w) =
      h.R_trans w _ _ (h.by_range w) (with_range-R new_install (steps.get_time_range w))

  with_commit-R : (p : Bool × W) → R p.1 (world_of (with_commit steps p))
  unfolding with_commit
  with_commit-R (new_install, w) = elim (Bool-cases (steps.check_config w)) [
    | inl e ↦ rw e (with_directories-R new_install (none, w))
    | inr e ↦ rw e (
        h.R_trans w _ _ (h.by_directories w)
          (with_directories-R new_install (steps.get_directory_config w)))
  ]

  with_cluster_id-R : (p : Option String × W) → R p.1 (world_of (with_cluster_id steps p))
  unfolding with_cluster_id give_up
  with_cluster_id-R (some e, w) = h.by_update w
  with_cluster_id-R (none, w) =
      h.R_trans w _ _ (h.R_trans w _ _ (h.by_source_name w) (h.by_commit _))
        (with_commit-R (steps.reflect_commit (steps.default_source_name w)))

  -- From the identification of the cluster on.
  after_cluster-R : (w : W) → R w (world_of (with_cluster_id steps (steps.set_cluster_id w)))
  after_cluster-R w = h.R_trans w _ _ (h.by_cluster w) (with_cluster_id-R (steps.set_cluster_id w))

  with_volume-R : (p : Configured × W) → R p.1 (world_of (with_volume steps p))
  unfolding with_volume
  with_volume-R (goes_on, w) = after_cluster-R w
  with_volume-R (returns_early, w) = h.R_refl w
  with_volume-R (failed e, w) = h.R_refl w
  with_volume-R (panics, w) = h.R_refl w

  with_resource-R : (f : Fetched) (w : W) → R w (world_of (with_resource steps f w))
  unfolding with_resource
  with_resource-R gone w = h.R_refl w
  with_resource-R (unread e) w = h.R_refl w
  with_resource-R found w =
      let w' = steps.reflect_spec w in
      h.R_trans w _ _ (h.by_reflect w)
        (elim steps.in_cluster
          as (λ b. R w' (
            world_of (
              if b
              then with_volume steps (steps.configure_pvc w')
              else with_cluster_id steps (steps.set_cluster_id w')))) [
                | true ↦ h.R_trans w' _ _ (h.by_volume w') (with_volume-R (steps.configure_pvc w'))
                | false ↦ after_cluster-R w'
              ])

  before_upload-R : (w : W) → R w (world_of (before_upload steps w))
  unfolding before_upload
  before_upload-R w = with_resource-R (steps.fetch w) w

  from_upload-Kept :
      (w : W) (p : Progress W)
      → before_upload steps w ≡ p
      → R w (world_of p)
      → (R w (from_upload steps p).1) ⊎ (Uploading steps R Allowed w)
  unfolding from_upload
  from_upload-Kept w (stopped r v) e q = inl q
  from_upload-Kept w (ready v) e q = elim (upload_step-Kept v) [
    | inl k ↦ inl (h.R_trans w v _ q k)
    | inr k ↦ inr (record { world = v; prepared = e; kept = q; switched_on = k.0; allowed = k.1 })
  ]

  pub reconcile-Kept : (w : W) → (R w (reconcile steps w).1) ⊎ (Uploading steps R Allowed w)
  unfolding reconcile
  reconcile-Kept w = from_upload-Kept w (before_upload steps w) refl (before_upload-R w)
