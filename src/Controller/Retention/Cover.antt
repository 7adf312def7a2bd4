-- ===== src/Controller/Retention/Cover.antt =====
-- Which hours the loops of Reconcile query.
use koku_metrics_operator.Base.{
  ℕ, zero, suc, ◌+◌, ◌-◌, ◌*◌, ◌/◌, ◌<◌, ◌≡◌, refl, ap, ◌∙◌, sym, Bool, true, false, if◌then◌else◌,
  ltb, Bool-cases, inl, inr, arith, ◌⊎◌,
}
use koku_metrics_operator.Base.Time.{Time, hour, day}
use koku_metrics_operator.Controller.Retention.{
  Loop, skips, collect_hours, hours_left, hours_in_day, package_often, collect_days, collect,
}

-- The state after the queries of `n` consecutive hours.
unfoldable pub visit : {S : Type 0} → Loop S → ℕ → Time → S → S
visit loop zero t s = s
visit loop (suc n) t s = visit loop n (t + hour) (loop.query t s).0

module _ {S : Type 0} (loop : Loop S) (later : loop.initial_data_collection ≡ false) where
  visit-add :
      (m n : ℕ) (t : Time) (s : S)
      → visit loop (m + n) t s ≡ visit loop n (t + m * hour) (visit loop m t s)
  unfolding visit
  visit-add zero n t s =
      let e : t ≡ t + 0 * hour = omega arith in
      let e' : 0 + n ≡ n = omega arith in
      ap (λ k. visit loop k t s) e' ∙ ap (λ u. visit loop n u s) e
  visit-add (suc m) n t s =
      let e : t + hour + m * hour ≡ t + suc m * hour = omega arith in
      let e' : suc m + n ≡ suc (m + n) = omega arith in
      ap (λ k. visit loop k t s) e'
      ∙ visit-add m n (t + hour) (loop.query t s).0
      ∙ ap (λ u. visit loop n u (visit loop m (t + hour) (loop.query t s).0)) e

  skips-never : (t : Time) (no_data : Bool) → skips loop t no_data ≡ false
  unfolding skips
  skips-never t no_data = ground (arith, later)

  collect_hours-visit :
      (n : ℕ) (t : Time) (s : S) → collect_hours loop n t s ≡ (t + n * hour, visit loop n t s)
  unfolding collect_hours visit
  collect_hours-visit zero t s = ap (λ u. (u, s)) (omega arith)
  collect_hours-visit (suc n) t s = rw (skips-never t (loop.query t s).1) (
      collect_hours-visit n (t + hour) (loop.query t s).0
      ∙ ap (λ u. (u, visit loop n (t + hour) (loop.query t s).0)) (omega arith))

  -- The hours from a start to the end of the range.
  abbrev pub hours_to_end : Time → ℕ
  hours_to_end start = if ltb loop.end_time start then 0 else suc ((loop.end_time - start) / hour)

  hours_left-splits :
      (start : Time)
      → ltb loop.end_time start ≡ false
      → suc (hours_left loop start) + hours_to_end (start + day) ≡ hours_to_end start
  unfolding hours_left
  hours_left-splits start h = ground (arith)

  hours_left-whole_day :
      (start : Time) → hours_left loop start ≡ hours_in_day ⊎ hours_to_end (start + day) ≡ 0
  unfolding hours_left
  hours_left-whole_day start =
      elim (Bool-cases (ltb hours_in_day ((loop.end_time - start) / hour))) [
        | inl e ↦ inl (rw e refl)
        | inr e ↦ inr (ground arith)
      ]

  package_often-later :
      (start_time : Time) (r : Time × S) → package_often loop start_time r ≡ (start_time, r.1)
  unfolding package_often
  package_often-later start_time (t, s) = rw later refl

  -- What a day leaves is visited from the next day on.
  visit-next_day :
      (start : Time) (s : S)
      → ltb loop.end_time start ≡ false
      → visit loop
          (hours_to_end (start + day))
          (start + day)
          (visit loop (suc (hours_left loop start)) start s)
        ≡ visit loop (hours_to_end start) start s
  unfolding visit
  visit-next_day start s h =
      let n = hours_left loop start in
      let split : visit loop (suc n + hours_to_end (start + day)) start s
          ≡ visit loop (hours_to_end start) start s =
        ap (λ k. visit loop k start s) (hours_left-splits start h) in
      let goal : visit loop (hours_to_end (start + day)) (start + day) (visit loop (suc n) start s)
          ≡ visit loop (hours_to_end (start + day)) (start + suc n * hour)
              (visit loop (suc n) start s) =
        elim (hours_left-whole_day start) [
          | inl e ↦
              let same : start + day ≡ start + suc n * hour = omega arith in
              ap (λ u. visit loop (hours_to_end (start + day)) u (visit loop (suc n) start s)) same
          | inr e ↦ rw (e, visit) refl
        ] in
      goal ∙ sym (visit-add (suc n) (hours_to_end (start + day)) start s) ∙ split

  collect_days-visit :
      (fuel : ℕ) (start start_time : Time) (s : S)
      → loop.end_time < start + fuel * day
      → collect_days loop fuel start (start_time, s) ≡ visit loop (hours_to_end start) start s
  unfolding collect_days visit
  collect_days-visit zero start start_time s enough =
      let none : ltb loop.end_time start ≡ true = ground arith in rw none refl
  collect_days-visit (suc fuel) start start_time s enough =
      elim (Bool-cases (ltb loop.end_time start)) [
        | inl e ↦ rw e refl
        | inr e ↦
            let n = suc (hours_left loop start) in
            let s' = visit loop n start s in
            let ih = collect_days-visit fuel (start + day) start_time s' (omega arith) in
            let all : collect_days loop fuel (start + day)
                  (package_often loop start_time (collect_hours loop n start s))
                ≡ visit loop (hours_to_end start) start s =
              ap (λ r. collect_days loop fuel (start + day) (package_often loop start_time r))
                (collect_hours-visit n start s)
              ∙ ap (λ r. collect_days loop fuel (start + day) r)
                  (package_often-later start_time (start + n * hour, s'))
              ∙ ih
              ∙ visit-next_day start s e in
            let begun : collect_days loop (suc fuel) start (start_time, s)
                ≡ collect_days loop fuel (start + day)
                    (package_often loop start_time (collect_hours loop n start s)) =
              rw e refl in
            begun ∙ all
      ]

  -- Outside of the initial data collection, the loops of a reconciliation query every hour from the
  -- start time to the end time once, in order, and no other: as many consecutive hours as begin
  -- between the two, and none if the end is before the start.
  pub collect-covers :
      (start_time : Time) (s : S)
      → collect loop start_time s ≡ visit loop (hours_to_end start_time) start_time s
  unfolding collect
  collect-covers start_time s =
      collect_days-visit (suc ((loop.end_time - start_time) / day)) start_time start_time s
        (omega arith)
