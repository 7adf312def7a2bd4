-- ===== src/Controller/Retention/Preserved.antt =====
-- What the loops of Reconcile over days and hours keep, if a query and packaging keep it.
use koku_metrics_operator.Base.{
  ℕ, zero, suc, ◌+◌, ◌*◌, ◌-◌, ◌/◌, ◌&&◌, ◌==◌, leb, ltb, Bool-cases, inl, inr,
}
use koku_metrics_operator.Base.Time.{Time, hour, day}
use koku_metrics_operator.Controller.Retention.{
  Loop, skips, collect_hours, hours_left, package_often, collect_days, collect,
}

module _ {S : Type 0} (loop : Loop S) (R : S → S → Type 0) (R_refl : (s : S) → R s s)
    (R_trans : (s t u : S) → R s t → R t u → R s u)
    (by_query : (t : Time) (s : S) → R s (loop.query t s).0)
    (by_package : (s : S) → R s (loop.package_reports s)) where
  collect_hours-R : (n : ℕ) (t : Time) (s : S) → R s (collect_hours loop n t s).1
  unfolding collect_hours
  collect_hours-R zero t s = R_refl s
  collect_hours-R (suc n) t s =
      let after = loop.query t s in
      elim (Bool-cases (skips loop t after.1)) [
        | inl e ↦ rw e (by_query t s)
        | inr e ↦ rw e (R_trans s after.0 _ (by_query t s) (collect_hours-R n (t + hour) after.0))
      ]

  package_often-R :
      (u : S) (start_time : Time) (p : Time × S) → R u p.1 → R u (package_often loop start_time p).1
  unfolding package_often
  package_often-R u start_time (t, s) h =
      elim (Bool-cases
        (loop.initial_data_collection && (leb start_time t && t - start_time == 96 * hour))) [
          | inl e ↦ rw e (R_trans u s _ h (by_package s))
          | inr e ↦ rw e h
        ]

  collect_days-R :
      (fuel : ℕ) (start start_time : Time) (s : S)
      → R s (collect_days loop fuel start (start_time, s))
  unfolding collect_days
  collect_days-R zero start start_time s = R_refl s
  collect_days-R (suc fuel) start start_time s =
      let next =
        package_often loop start_time (collect_hours loop (suc (hours_left loop start)) start s) in
      elim (Bool-cases (ltb loop.end_time start)) [
        | inl e ↦ rw e (R_refl s)
        | inr e ↦ rw e (
            R_trans s next.1 _
              (package_often-R s start_time _
                (collect_hours-R (suc (hours_left loop start)) start s))
              (collect_days-R fuel (start + day) next.0 next.1))
      ]

  pub collect-R : (start_time : Time) (s : S) → R s (collect loop start_time s)
  unfolding collect
  collect-R start_time s =
      collect_days-R (suc ((loop.end_time - start_time) / day)) start_time start_time s
