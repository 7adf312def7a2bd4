-- ===== src/Controller/Reconcile/Ends.antt =====
-- How a reconciliation ends.
use koku_metrics_operator.Base.{
  ◌*◌, String, Bool, true, false, if◌then◌else◌, ◌≡◌, refl, Option, none, some, List, [], ◌∷◌, ◌++◌,
  Result, ok, err,
}
use koku_metrics_operator.Base.Time.{Time, minute}
use koku_metrics_operator.Storage.Configure.{Configured, goes_on, returns_early, failed, panics}
use koku_metrics_operator.Controller.Session.{Ending, returns}
use koku_metrics_operator.Controller.Session
use koku_metrics_operator.Controller.Reconcile.{
  before_upload, from_upload, Fetched, found, gone, unread, Reconciled, finished, panicked, Steps,
  concat_errs, of_error, result_of, update_at_end, listed, trimmed, uploaded, upload_step,
  collect_step, give_up, with_collector, package_old, with_range, with_directories, with_commit,
  with_cluster_id, with_volume, with_resource, reconcile,
}

-- The ways to end: with the status saved last and a time; with an error and no time; with neither,
-- if the volume was converted or the resource is gone; or with a panic of one of two steps.
pub data IsEnd {W : Type 0} (steps : Steps W) : Reconciled × W → Type 0 where
  saves :
      {u v : W}
      → steps.update_status u ≡ (none, v)
      → IsEnd steps (finished (some (5 * minute)) none, v)
  fails : {e : String} {v : W} → IsEnd steps (finished none (some e), v)
  converts :
      {u v : W} → steps.configure_pvc u ≡ (returns_early, v) → IsEnd steps (finished none none, v)
  is_gone : {v : W} → steps.fetch v ≡ gone → IsEnd steps (finished none none, v)
  panics_early : {u v : W} → steps.configure_pvc u ≡ (panics, v) → IsEnd steps (panicked, v)
  panics_late :
      {u v : W} → steps.set_auth_and_upload u ≡ (Session.panics, v) → IsEnd steps (panicked, v)

module _ {W : Type 0} (steps : Steps W) where
  result_of-IsEnd :
      (errors : List String) (u : W) (r : Option String × W)
      → steps.update_status u ≡ r
      → IsEnd steps (update_at_end steps errors r)
  unfolding update_at_end result_of concat_errs
  result_of-IsEnd [] u (none, v) h = saves h
  result_of-IsEnd [] u (some e, v) h = fails
  result_of-IsEnd (e ∷ errors) u (o, v) h = fails

  listed-IsEnd :
      (errors : List String) (r : Result String (List String)) (w : W)
      → IsEnd steps (listed steps errors r w)
  unfolding listed
  listed-IsEnd errors (err e) w =
      result_of-IsEnd (errors ++ (e ∷ [])) (steps.set_packaged_files [] w) _ refl
  listed-IsEnd errors (ok files) w =
      result_of-IsEnd errors (steps.set_packaged_files files w) _ refl

  trimmed-IsEnd :
      (errors : List String) (p : Option String × W) → IsEnd steps (trimmed steps errors p)
  unfolding trimmed
  trimmed-IsEnd errors (e, w) = listed-IsEnd (errors ++ of_error e) (steps.upload_files w) w

  uploaded-IsEnd :
      (u : W) (p : Ending × W) → steps.set_auth_and_upload u ≡ p → IsEnd steps (uploaded steps p)
  unfolding uploaded
  uploaded-IsEnd u (returns e, w) h = trimmed-IsEnd (of_error e) (steps.trim_packages w)
  uploaded-IsEnd u (Session.panics, w) h = panics_late h

  upload_step-IsEnd : (w : W) → IsEnd steps (upload_step steps w)
  unfolding upload_step
  upload_step-IsEnd w =
      elim (steps.upload_toggle w)
        as (λ b. IsEnd steps (
          if b
          then uploaded steps (steps.set_auth_and_upload w)
          else trimmed steps [] (steps.trim_packages w))) [
            | true ↦ uploaded-IsEnd w (steps.set_auth_and_upload w) refl
            | false ↦ trimmed-IsEnd [] (steps.trim_packages w)
          ]

  with_collector-IsEnd :
      (start_time end_time : Time) (p : Option String × W)
      → IsEnd steps (from_upload steps (with_collector steps start_time end_time p))
  unfolding from_upload with_collector give_up
  with_collector-IsEnd start_time end_time (some e, w) = fails
  with_collector-IsEnd start_time end_time (none, w) =
      upload_step-IsEnd (collect_step steps start_time end_time w)

  with_directories-IsEnd :
      (new_install : Bool) (p : Option String × W)
      → IsEnd steps (from_upload steps (with_directories steps new_install p))
  unfolding from_upload with_directories with_range
  with_directories-IsEnd new_install (some e, w) = fails
  with_directories-IsEnd new_install (none, w) =
      let range = steps.get_time_range w in
      let old = package_old steps new_install (range.0.0, steps.new_packager range.1) in
      with_collector-IsEnd old.0 range.0.1 (steps.get_prom_collector old.1)

  with_cluster_id-IsEnd :
      (p : Option String × W) → IsEnd steps (from_upload steps (with_cluster_id steps p))
  unfolding from_upload with_cluster_id with_commit give_up
  with_cluster_id-IsEnd (some e, w) = fails
  with_cluster_id-IsEnd (none, w) =
      let committed = steps.reflect_commit (steps.default_source_name w) in
      with_directories-IsEnd committed.0 (
        if steps.check_config committed.1
        then (none, committed.1)
        else steps.get_directory_config committed.1)

  with_volume-IsEnd :
      (u : W) (p : Configured × W)
      → steps.configure_pvc u ≡ p
      → IsEnd steps (from_upload steps (with_volume steps p))
  unfolding from_upload with_volume
  with_volume-IsEnd u (goes_on, w) h = with_cluster_id-IsEnd (steps.set_cluster_id w)
  with_volume-IsEnd u (returns_early, w) h = converts h
  with_volume-IsEnd u (failed e, w) h = fails
  with_volume-IsEnd u (panics, w) h = panics_early h

  with_resource-IsEnd :
      (f : Fetched) (w : W)
      → steps.fetch w ≡ f
      → IsEnd steps (from_upload steps (with_resource steps f w))
  unfolding from_upload with_resource
  with_resource-IsEnd gone w h = is_gone h
  with_resource-IsEnd (unread e) w h = fails
  with_resource-IsEnd found w h =
      let w' = steps.reflect_spec w in
      elim steps.in_cluster
        as (λ b. IsEnd steps (
          from_upload steps (
            if b
            then with_volume steps (steps.configure_pvc w')
            else with_cluster_id steps (steps.set_cluster_id w')))) [
              | true ↦ with_volume-IsEnd w' (steps.configure_pvc w') refl
              | false ↦ with_cluster_id-IsEnd (steps.set_cluster_id w')
            ]

  -- Whatever its steps do, Reconcile asks to be called again in five minutes only with no error and
  -- with the status saved in its last step; it returns an error without a time; and it returns neither
  -- only if it converted the volume or the resource is gone. A panic is that of a step.
  pub reconcile-IsEnd : (w : W) → IsEnd steps (reconcile steps w)
  unfolding reconcile before_upload
  reconcile-IsEnd w = with_resource-IsEnd (steps.fetch w) w refl
