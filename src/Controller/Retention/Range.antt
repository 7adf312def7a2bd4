-- ===== src/Controller/Retention/Range.antt =====
-- The bounds of the range to query.
use koku_metrics_operator.Base.{
  ℕ, ◌+◌, ◌-◌, ◌*◌, ◌≤◌, ◌<◌, ◌≡◌, String, str_eq, ◌&&◌, not, Option, none, some, Result, ok, err,
  if◌then◌else◌, ltb, ◌==◌, Bool-cases, inl, inr, arith,
}
use koku_metrics_operator.Base.Time.{Time, hour, day, minute, second, is_zero, truncate}
use koku_metrics_operator.Controller.Retention.{
  Monitoring, limited, configured, from_config_map, set_retention_period, ninety_day_duration,
  RangeState, is_true, resumed, get_time_range, retained_from,
}

limited-bounded : (r : Result String ℕ) → limited r ≤ ninety_day_duration
unfolding limited
limited-bounded (err e) = omega arith
limited-bounded (ok d) = ground arith

configured-bounded :
    (m : Monitoring) (r : Result String String) → configured m r ≤ ninety_day_duration
unfolding configured
configured-bounded m (err e) = omega arith
configured-bounded m (ok r) = elim (Bool-cases (str_eq r "")) [
  | inl e ↦ rw e (omega arith)
  | inr e ↦ rw e (limited-bounded (m.parse_duration r))
]

from_config_map-bounded :
    (m : Monitoring) (r : Result String (Option String)) → from_config_map m r ≤ ninety_day_duration
unfolding from_config_map
from_config_map-bounded m (err e) = omega arith
from_config_map-bounded m (ok none) = omega arith
from_config_map-bounded m (ok (some text)) = configured-bounded m (m.unmarshal text)

abbrev pub longest_back : ℕ
longest_back = ninety_day_duration + day

IsBack : Time → Time → Type 0
IsBack start s = (start ≤ s + longest_back) × (s ≤ start)

retained_from-IsBack :
    (retention start : ℕ)
    → retention ≤ ninety_day_duration
    → IsBack start (retained_from retention start)
unfolding IsBack
retained_from-IsBack retention start h = ground arith

resumed-IsBack :
    (retention last start : ℕ)
    → retention ≤ ninety_day_duration
    → IsBack start (resumed retention last start)
unfolding IsBack resumed
resumed-IsBack retention last start h =
    elim (Bool-cases (not (is_zero last) && ltb hour (start - last))) [
      | inr e ↦ rw e (omega arith, omega arith)
      | inl e ↦ elim (Bool-cases (ltb last (start - retention))) [
        | inl l ↦ rw (e, l) (retained_from-IsBack retention start h)
        | inr l ↦
            let late : hour < start - last = ground arith in
            let early : start - retention ≤ last = ground arith in
            rw (e, l) (omega arith, omega arith)
      ]
    ]

known_or_set :
    (m : Monitoring) (known : ℕ)
    → known ≤ ninety_day_duration
    → (if known == 0 then set_retention_period m else known) ≤ ninety_day_duration
unfolding set_retention_period
known_or_set m known h = elim (Bool-cases (known == 0)) [
  | inl e ↦ rw e (from_config_map-bounded m m.config_map)
  | inr e ↦ rw e h
]

back-bounds :
    (this s : Time)
    → IsBack (this - hour) s
    → (s ≤ (this - hour) + (59 * minute + 59 * second)) × (this ≤ s + longest_back + hour)
unfolding IsBack
back-bounds this s (far, near) = (omega arith, omega arith)

-- If the present time is at least 92 days after the zero time and the retention period that the
-- reconciler knows is at most 90 days (it is 0 before it is known), then the range to query ends one
-- second before the full hour that the present time is in, it does not begin after its end, and it
-- begins at most 91 days and an hour before that full hour; the retention period that is kept is
-- again at most 90 days.
pub get_time_range-bounded :
    (m : Monitoring) (now : Time) (st : RangeState)
    → st.retention_period ≤ ninety_day_duration
    → 92 * day ≤ now
    → (let r = get_time_range m now st in
        ((r.0.1 + second ≡ truncate now hour) × (r.0.0 ≤ r.0.1))
        × ((truncate now hour ≤ r.0.0 + longest_back + hour)
            × (r.1.retention_period ≤ ninety_day_duration)))
unfolding get_time_range IsBack
get_time_range-bounded m now st known late =
    let retention =
      if st.retention_period == 0 then set_retention_period m else st.retention_period in
    let start = truncate now hour - hour in
    let bound = known_or_set m st.retention_period known in
    elim (Bool-cases (is_true st.collect_previous_data && is_zero st.last_query_success_time)) [
      | inl e ↦
          let back = retained_from-IsBack retention start bound in
          let ends = back-bounds (truncate now hour) (retained_from retention start) back in
          rw e ((omega arith, ends.0), (ends.1, bound))
      | inr e ↦
          let back = resumed-IsBack retention st.last_query_success_time start bound in
          let ends =
            back-bounds (truncate now hour) (resumed retention st.last_query_success_time start)
              back in
          rw e ((omega arith, ends.0), (ends.1, bound))
    ]
