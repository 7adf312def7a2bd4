-- ===== src/Controller/Reconcile/Run/Sends.antt =====
-- When a reconciliation uploads.
use koku_metrics_operator.Base.{
  String, true, ◌≡◌, ◌⊎◌, inl, inr, refl, sym, ap, ◌∙◌, str_eq, Option, none, some, List, Result,
  ok, err, Bool-cases,
}
use koku_metrics_operator.Base.Time.{Time}
use koku_metrics_operator.Dirconfig.{DirectoryConfig, Disk}
use koku_metrics_operator.Collector.Generate
use koku_metrics_operator.Collector.Generate.{Generated, no_data}
use koku_metrics_operator.Collector.Reports.{Gathered}
use koku_metrics_operator.Controller.Query.{PromStatus}
use koku_metrics_operator.Controller.Session.Guarded.{Cleared, set_auth_and_upload-Untouched}
use koku_metrics_operator.Controller.Reconcile.{reconcile}
use koku_metrics_operator.Controller.Reconcile.Preserved.{Preserves, Uploading, reconcile-Kept}
use koku_metrics_operator.Controller.Reconcile.World.{OperatorEnv, World, is_true}
use koku_metrics_operator.Controller.Reconcile.Run.{
  configured, name_source, queried, query, upload, trimmed, session_of, before_session, steps_of,
}

-- Nothing is uploaded, and the switch of the resource stays.
pub record SameSent (u v : World) : Type 0 where
  pub same_sent : v.session.uploads.sent ≡ u.session.uploads.sent
  pub same_switch : v.spec.upload_toggle ≡ u.spec.upload_toggle

module _ {F : Type 0} (env : OperatorEnv F) where
  -- setAuthAndUpload may upload in this world.
  abbrev pub IsCleared : World → Type 0
  IsCleared w = Cleared (session_of env w) (before_session env w)

  same : (w : World) → SameSent w w
  same w = record { same_sent = refl; same_switch = refl }

  configured-SameSent :
      (r : Result String (DirectoryConfig × Disk)) (w : World) → SameSent w (configured env r w).1
  unfolding configured
  configured-SameSent (err e) w = same w
  configured-SameSent (ok p) w = record { same_sent = refl; same_switch = refl }

  name_source-SameSent : (w : World) → SameSent w (name_source env w)
  unfolding name_source
  name_source-SameSent w = elim (Bool-cases (str_eq w.status.source_name "")) [
    | inl e ↦ rw e (record { same_sent = refl; same_switch = refl })
    | inr e ↦ rw e (record { same_sent = refl; same_switch = refl })
  ]

  queried-SameSent :
      (r : Option Generated) (prom : PromStatus) (gathered : Gathered) (w : World)
      → SameSent w (queried env r prom gathered w).0
  unfolding queried
  queried-SameSent none prom gathered w = record { same_sent = refl; same_switch = refl }
  queried-SameSent (some no_data) prom gathered w = record { same_sent = refl; same_switch = refl }
  queried-SameSent (some Generate.reports_written) prom gathered w = record {
    same_sent = refl;
    same_switch = refl;
  }
  queried-SameSent (some Generate.ros_no_enabled_namespaces) prom gathered w = record {
    same_sent = refl;
    same_switch = refl;
  }
  queried-SameSent (some (Generate.failure e)) prom gathered w = record {
    same_sent = refl;
    same_switch = refl;
  }

  query-SameSent : (t : Time) (w : World) → SameSent w (query env t w).0
  unfolding query
  query-SameSent t w = queried-SameSent _ _ _ w

  trimmed-SameSent : (r : Result String (List String)) (w : World) → SameSent w (trimmed env r w).1
  unfolding trimmed
  trimmed-SameSent (err e) w = same w
  trimmed-SameSent (ok names) w = record { same_sent = refl; same_switch = refl }

  upload-SameSent : (w : World) → (SameSent w (upload env w).1) ⊎ (IsCleared w)
  unfolding upload before_session
  upload-SameSent w =
      elim (set_auth_and_upload-Untouched (session_of env w) (before_session env w)) [
        | inl h ↦ inl (record { same_sent = h.same_sent; same_switch = refl })
        | inr h ↦ inr h
      ]

  steps_of-Preserves : Preserves (steps_of env) SameSent IsCleared
  unfolding steps_of
  steps_of-Preserves = record {
    R_refl = same;
    R_trans = λ u v w p q. record {
      same_sent = q.same_sent ∙ p.same_sent;
      same_switch = q.same_switch ∙ p.same_switch;
    };
    by_reflect = λ w. record { same_sent = refl; same_switch = refl };
    by_volume = λ w. record { same_sent = refl; same_switch = refl };
    by_cluster = λ w. record { same_sent = refl; same_switch = refl };
    by_source_name = name_source-SameSent;
    by_commit = λ w. record { same_sent = refl; same_switch = refl };
    by_directories = λ w. configured-SameSent _ w;
    by_range = λ w. record { same_sent = refl; same_switch = refl };
    by_packager = λ w. record { same_sent = refl; same_switch = refl };
    by_package = λ action w. record { same_sent = refl; same_switch = refl };
    by_collector = λ w. record { same_sent = refl; same_switch = refl };
    by_query = query-SameSent;
    by_end = λ w. record { same_sent = refl; same_switch = refl };
    by_package_cycle = λ action w. record { same_sent = refl; same_switch = refl };
    by_trim = λ w. trimmed-SameSent _ w;
    by_packaged = λ files w. record { same_sent = refl; same_switch = refl };
    by_update = λ w. record { same_sent = refl; same_switch = refl };
    by_upload = upload-SameSent;
  }

  Sent-switched :
      (w : World)
      → Uploading (steps_of env) SameSent IsCleared w
      → is_true w.spec.upload_toggle ≡ true
  unfolding steps_of
  Sent-switched w h = sym (ap is_true h.kept.same_switch) ∙ h.switched_on

  -- A reconciliation uploads nothing, whatever else it does and whatever fails in it, unless the
  -- resource has the upload switched on, the reconciliation comes to the upload, and the world that it
  -- comes there with has credentials that are found and validated without error, a source that is
  -- defined after its check, and an upload that is due.
  pub reconcile-SameSent :
      (w : World)
      → (let w' = (reconcile (steps_of env) w).1 in
          (w'.session.uploads.sent ≡ w.session.uploads.sent)
          ⊎ ((is_true w.spec.upload_toggle ≡ true) × Uploading (steps_of env) SameSent IsCleared w))
  reconcile-SameSent w =
      elim (reconcile-Kept (steps_of env) SameSent IsCleared steps_of-Preserves w) [
        | inl h ↦ inl h.same_sent
        | inr h ↦ inr (Sent-switched w h, h)
      ]
