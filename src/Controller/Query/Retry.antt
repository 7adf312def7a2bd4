-- ===== src/Controller/Query/Retry.antt =====
-- How often a range is tried.
use koku_metrics_operator.Base.{
  ℕ, zero, suc, ◌+◌, ◌≤◌, ◌<◌, ◌≡◌, refl, ap, ◌∙◌, sym, String, Bool, true, false, Option, none,
  some, List, [], ◌∷◌, All, if◌then◌else◌, ltb, ◌==◌, Bool-cases, inl, inr, arith,
}
use koku_metrics_operator.Base.Time.{Time, Location, utc, local, same_location, Stamp, same_stamp}
use koku_metrics_operator.Collector.Generate.{
  Generated, reports_written, no_data, ros_no_enabled_namespaces, failure,
}
use koku_metrics_operator.Controller.Query.{
  Tracker, retries, set_retries, get_or_zero, needed, is_query_needed, PromStatus, record_result,
  collect_prom_stats,
}

same_location-eq : (l m : Location) → same_location l m ≡ true → l ≡ m
same_location-eq utc utc h = refl
same_location-eq local local h = refl
same_location-eq utc local h = cc
same_location-eq local utc h = cc

same_location_refl : (l : Location) → same_location l l ≡ true
same_location_refl utc = refl
same_location_refl local = refl

same_stamp-eq : (t u : Stamp) → same_stamp t u ≡ true → t ≡ u
unfolding same_stamp
same_stamp-eq t u h =
    let instants : t.instant ≡ u.instant = ground arith in
    let locations : same_location t.location u.location ≡ true = ground arith in
    ap (λ i. record t { instant = i }) instants
    ∙ ap (λ l. record u { location = l }) (same_location-eq t.location u.location locations)

same_stamp_refl : (t : Stamp) → same_stamp t t ≡ true
unfolding same_stamp
same_stamp_refl t = rw (same_location_refl t.location) (ground arith)

-- What is the same as a stamp differs from what the stamp differs from.
same_stamp-other :
    (t u v : Stamp) → same_stamp v u ≡ true → same_stamp u t ≡ false → same_stamp v t ≡ false
same_stamp-other t u v e f = rw (same_stamp-eq v u e) f

differs : (t u v : Stamp) → same_stamp v u ≡ false → same_stamp v t ≡ true → same_stamp u t ≡ false
differs t u v e f = elim (Bool-cases (same_stamp u t)) [
  | inr h ↦ h
  | inl h ↦
      let same : v ≡ u = same_stamp-eq v t f ∙ sym (same_stamp-eq u t h) in
      let wrong : false ≡ true = sym e ∙ ap (λ w. same_stamp w u) same ∙ same_stamp_refl u in cc
]

unfoldable pub count_of : Stamp → Tracker → ℕ
unfolding get_or_zero retries
count_of t tracker = get_or_zero (retries t tracker)

count_of-set :
    (t u : Stamp) (n : ℕ) (tracker : Tracker)
    → count_of t (set_retries u n tracker) ≡ (if same_stamp u t then n else count_of t tracker)
unfolding count_of set_retries retries get_or_zero
count_of-set t u n [] = elim (Bool-cases (same_stamp u t)) [ inl e ↦ rw e refl | inr e ↦ rw e refl ]
count_of-set t u n ((v, m) ∷ rest) =
    let ih = count_of-set t u n rest in
    elim (Bool-cases (same_stamp v u)) [
      | inl e ↦ elim (Bool-cases (same_stamp u t)) [
        | inl f ↦ rw (e, f) refl
        | inr f ↦ rw (e, f, same_stamp-other t u v e f) refl
      ]
      | inr e ↦ elim (Bool-cases (same_stamp v t)) [
        | inl f ↦ let other : same_stamp u t ≡ false = differs t u v e f in rw (e, f, other) refl
        | inr f ↦ rw (e, f) ih
      ]
    ]

needed_lem :
    (t start : Stamp) (tracker : Tracker) (o : Option ℕ)
    → retries start tracker ≡ o
    → ((needed start tracker o).0 ≡ ltb (get_or_zero o) 5)
      × (count_of t (needed start tracker o).1 ≡ count_of t tracker)
unfolding needed get_or_zero count_of
needed_lem t start tracker (some n) e = (refl, refl)
needed_lem t start tracker none e =
    let unset = count_of-set t start 0 tracker in
    (
      refl,
      unset ∙ elim (Bool-cases (same_stamp start t)) [
        | inr f ↦ rw f refl
        | inl f ↦
            let same = same_stamp-eq start t f in
            let nothing : retries t tracker ≡ none = rw (sym same) e in rw (f, nothing) refl
      ],
    )

-- Asking whether a query is needed changes no count, and the answer is the limit of five.
is_query_needed_lem :
    (t start : Stamp) (tracker : Tracker)
    → ((is_query_needed start tracker).0 ≡ ltb (count_of start tracker) 5)
      × (count_of t (is_query_needed start tracker).1 ≡ count_of t tracker)
unfolding is_query_needed count_of
is_query_needed_lem t start tracker = needed_lem t start tracker (retries start tracker) refl

-- A collection that is tried for a range, what GenerateReports returns if it is called, and the
-- start of the range then.
abbrev pub Attempt : Type 0
Attempt = Stamp × (Generated × Time)

-- Is it called, and fails, for the range from `t`?
unfoldable pub fails_for : Stamp → Stamp → Option Generated → ℕ
fails_for t start (some (failure e)) = if same_stamp start t then 1 else 0
fails_for t start _ = 0

-- The failures for the range from `t` in a run of attempts.
unfoldable pub failures : Stamp → List Attempt → PromStatus → ℕ
unfolding fails_for
failures t [] st = 0
failures t ((start, (g, moved)) ∷ attempts) st =
    let (called, st') = collect_prom_stats (λ _. (g, moved)) start st in
    fails_for t start called + failures t attempts st'

is_success : Generated → Bool
is_success reports_written = true
is_success _ = false

-- No attempt writes its reports, and each leaves the start of its range.
unfoldable pub NoSuccess : List Attempt → Type 0
unfolding is_success
NoSuccess = All (λ (a : Attempt). (is_success a.1.0 ≡ false) × (a.1.1 ≡ a.0.instant))

record_result-count :
    (t start : Stamp) (g : Generated) (st : PromStatus)
    → is_success g ≡ false
    → count_of start st.tracker < 5
    → count_of t st.tracker ≤ 5
    → (count_of t (record_result start start g st).tracker
        ≡ fails_for t start (some g) + count_of t st.tracker)
      × (count_of t (record_result start start g st).tracker ≤ 5)
unfolding record_result is_success fails_for count_of
record_result-count t start reports_written st h limit bound = absurd (cc)
record_result-count t start no_data st h limit bound = (omega arith, bound)
record_result-count t start ros_no_enabled_namespaces st h limit bound = (omega arith, bound)
record_result-count t start (failure e) st h limit bound =
    let counted = count_of-set t start (suc (count_of start st.tracker)) st.tracker in
    elim (Bool-cases (same_stamp start t)) [
      | inl f ↦
          let same = same_stamp-eq start t f in
          let n : count_of start st.tracker ≡ count_of t st.tracker =
            ap (λ u. count_of u st.tracker) same in
          let c : count_of t (set_retries start (suc (count_of start st.tracker)) st.tracker)
              ≡ suc (count_of start st.tracker) =
            counted ∙ rw f refl in
          rw f (omega (arith, c, n), omega (arith, c))
      | inr f ↦
          let c : count_of t (set_retries start (suc (count_of start st.tracker)) st.tracker)
              ≡ count_of t st.tracker =
            counted ∙ rw f refl in
          rw f (omega (arith, c), omega (arith, c))
    ]

collect_prom_stats-count :
    (t start : Stamp) (g : Generated) (st : PromStatus)
    → is_success g ≡ false
    → count_of t st.tracker ≤ 5
    → (let r = collect_prom_stats (λ _. (g, start.instant)) start st in
        (count_of t r.1.tracker ≡ fails_for t start r.0 + count_of t st.tracker)
        × (count_of t r.1.tracker ≤ 5))
unfolding collect_prom_stats fails_for
collect_prom_stats-count t start g st h bound =
    let asked = is_query_needed_lem t start st.tracker in
    elim (Bool-cases (st.last_query_success_time == start.instant)) [
      | inl e ↦ rw e (omega arith, bound)
      | inr e ↦ elim (Bool-cases (is_query_needed start st.tracker).0) [
        | inr f ↦ rw (e, f) (omega (arith, asked.1), omega (arith, asked.1))
        | inl f ↦
            let tracker = (is_query_needed start st.tracker).1 in
            let kept = is_query_needed_lem start start st.tracker in
            let below : count_of start st.tracker < 5 = ground (arith, asked.0, f) in
            let r =
              record_result-count t start g
                (record st { last_query_start_time = start.instant; tracker = tracker }) h
                (omega (arith, kept.1, below)) (omega (arith, asked.1, bound)) in
            rw (e, f) (omega (arith, r.0, asked.1), r.1)
      ]
    ]

failures-count :
    (t : Stamp) (attempts : List Attempt) (st : PromStatus)
    → NoSuccess attempts
    → count_of t st.tracker ≤ 5
    → failures t attempts st + count_of t st.tracker ≤ 5
unfolding failures NoSuccess
failures-count t [] st h bound = omega arith
failures-count t ((start, (g, moved)) ∷ attempts) st ((h, same), rest) bound = rw same (
    let r = collect_prom_stats (λ _. (g, start.instant)) start st in
    let this = collect_prom_stats-count t start g st h bound in
    let ih = failures-count t attempts r.1 rest this.1 in omega (arith, this.0, ih))

-- Is it called, and fails, for the range from the instant `t`, in whatever Location?
unfoldable pub fails_at : Time → Stamp → Option Generated → ℕ
fails_at t start (some (failure e)) = if start.instant == t then 1 else 0
fails_at t start _ = 0

-- The failures for the range from the instant `t` in a run of attempts.
unfoldable pub hour_failures : Time → List Attempt → PromStatus → ℕ
unfolding fails_at
hour_failures t [] st = 0
hour_failures t ((start, (g, moved)) ∷ attempts) st =
    let (called, st') = collect_prom_stats (λ _. (g, moved)) start st in
    fails_at t start called + hour_failures t attempts st'

abbrev pub at_utc : Time → Stamp
at_utc t = record { instant = t; location = utc }

abbrev pub at_local : Time → Stamp
at_local t = record { instant = t; location = local }

one_location :
    (t i : Time) (l : Location)
    → (let start : Stamp = record { instant = i; location = l } in
        (if i == t then 1 else 0)
        ≡ (if same_stamp start (at_utc t) then 1 else 0)
          + (if same_stamp start (at_local t) then 1 else 0))
unfolding same_stamp
one_location t i utc = ground arith
one_location t i local = ground arith

fails_at-sum :
    (t : Time) (start : Stamp) (o : Option Generated)
    → fails_at t start o ≡ fails_for (at_utc t) start o + fails_for (at_local t) start o
unfolding fails_at fails_for same_stamp
fails_at-sum t start none = refl
fails_at-sum t start (some reports_written) = refl
fails_at-sum t start (some no_data) = refl
fails_at-sum t start (some ros_no_enabled_namespaces) = refl
fails_at-sum t start (some (failure e)) = one_location t start.instant start.location

hour_failures-sum :
    (t : Time) (attempts : List Attempt) (st : PromStatus)
    → hour_failures t attempts st
      ≡ failures (at_utc t) attempts st + failures (at_local t) attempts st
unfolding hour_failures failures
hour_failures-sum t [] st = refl
hour_failures-sum t ((start, (g, moved)) ∷ attempts) st =
    let r = collect_prom_stats (λ _. (g, moved)) start st in
    omega (arith, fails_at-sum t start r.0, hour_failures-sum t attempts r.1)

-- If the counts of an hour in the tracker, in UTC and in Local, are at most five, then in any run of
-- collections without a success, over whatever ranges and in whatever order, in which GenerateReports
-- leaves the start of each range, it is called for the hour and fails at most as often in each Location
-- as the count is short of five, and so ten times at most.
pub failures-limit :
    (t : Time) (attempts : List Attempt) (st : PromStatus)
    → NoSuccess attempts
    → count_of (at_utc t) st.tracker ≤ 5
    → count_of (at_local t) st.tracker ≤ 5
    → (failures (at_utc t) attempts st + count_of (at_utc t) st.tracker ≤ 5)
      × (failures (at_local t) attempts st + count_of (at_local t) st.tracker ≤ 5)
      × (hour_failures t attempts st ≤ 10)
failures-limit t attempts st h bound_utc bound_local =
    let in_utc = failures-count (at_utc t) attempts st h bound_utc in
    let in_local = failures-count (at_local t) attempts st h bound_local in
    (in_utc, in_local, omega (arith, in_utc, in_local, hour_failures-sum t attempts st))

unfoldable pub repeat : ℕ → Attempt → List Attempt
repeat zero a = []
repeat (suc n) a = a ∷ repeat n a

moved_elsewhere :
    (t : Stamp) (u : Time)
    → (u == t.instant) ≡ false
    → same_stamp (record t { instant = u }) t ≡ false
unfolding same_stamp
moved_elsewhere t u other = rw other refl

failed_elsewhere :
    (t : Stamp) (u : Time) (e : String) (st : PromStatus)
    → (u == t.instant) ≡ false
    → (st.last_query_success_time == t.instant) ≡ false
    → count_of t st.tracker ≡ 0
    → (let r = collect_prom_stats (λ _. (failure e, u)) t st in
        (fails_for t t r.0 ≡ 1)
        × ((r.1.last_query_success_time ≡ st.last_query_success_time)
            × (count_of t r.1.tracker ≡ 0)))
unfolding collect_prom_stats fails_for record_result count_of
failed_elsewhere t u e st other before fresh =
    let moved = record t { instant = u } in
    let asked = is_query_needed_lem t t st.tracker in
    let tracker = (is_query_needed t st.tracker).1 in
    let needed : (is_query_needed t st.tracker).0 ≡ true = ground (arith, asked.0, fresh) in
    let counted = count_of-set t moved (suc (count_of moved tracker)) tracker in
    let zero : count_of t (set_retries moved (suc (count_of moved tracker)) tracker) ≡ 0 =
      counted ∙ rw (moved_elsewhere t u other) (asked.1 ∙ fresh) in
    rw (before, needed, same_stamp_refl t) (refl, (refl, zero))

-- If GenerateReports fails every time and leaves another start in the range, then a range that has
-- not failed before is queried again, and fails, every time, however often that is.
pub failures-unlimited :
    (n : ℕ) (t : Stamp) (u : Time) (e : String) (st : PromStatus)
    → (u == t.instant) ≡ false
    → (st.last_query_success_time == t.instant) ≡ false
    → count_of t st.tracker ≡ 0
    → failures t (repeat n (t, (failure e, u))) st ≡ n
unfolding failures repeat
failures-unlimited zero t u e st other before fresh = refl
failures-unlimited (suc n) t u e st other before fresh =
    let r = collect_prom_stats (λ _. (failure e, u)) t st in
    let this = failed_elsewhere t u e st other before fresh in
    let ih = failures-unlimited n t u e r.1 other (rw this.1.0 before) this.1.1 in
    omega (arith, this.0, ih)
