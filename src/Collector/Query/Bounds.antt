-- ===== src/Collector/Query/Bounds.antt =====
-- How often the connection is queried, and how long it is waited.
use koku_metrics_operator.Base.{
  ℕ, zero, suc, ◌+◌, ◌*◌, ◌≤◌, ◌≡◌, Bool, true, false, Option, none, some, List, [], ◌∷◌, length,
  ok, Ensures, returns, fails, Ensures-bind, Ensures-map, if◌then◌else◌, arith,
}
use native.Mathlib.Nat.{mul-le-mul_right}
use koku_metrics_operator.Collector.Query.{
  Query, Answer, answered, other_type, failed, Asked, Source, apply_answer, handle, ask_query, pass,
  wait_time, get_query_results, max_retries,
}

more_calls :
    (first last all pending retries : ℕ)
    → last ≤ first + all + pending * suc retries
    → pending ≤ all
    → last ≤ first + all * suc (suc retries)
more_calls first last all pending retries h fewer =
    let product = mul-le-mul_right (suc retries) fewer in
    let more : all * suc (suc retries) ≡ all + all * suc retries = omega arith in
    omega (arith, h, product, more)

module _ {V R : Type 0} (source : Source V R) where
  -- One more call, and no wait.
  IsNext : Asked R → Asked R → Type 0
  IsNext st st' = (st'.calls ≡ suc st.calls) × (st'.waited ≡ st.waited)

  apply_answer-waited :
      (o : Option R) (st : Asked R)
      → Ensures
          (λ (r : Asked R × Bool). (r.0.calls ≡ st.calls) × (r.0.waited ≡ st.waited))
          (apply_answer source o st)
  unfolding apply_answer
  apply_answer-waited none st = fails
  apply_answer-waited (some r) st = returns (omega arith, omega arith)

  handle-waited :
      (retries : ℕ) (q : Query) (a : Answer V) (st : Asked R)
      → Ensures
          (λ (r : Asked R × Bool). (r.0.calls ≡ st.calls) × (r.0.waited ≡ st.waited))
          (handle source retries q a st)
  unfolding handle
  handle-waited zero q (failed e) st = fails
  handle-waited (suc retries) q (failed e) st = returns (omega arith, omega arith)
  handle-waited retries q (other_type t) st = fails
  handle-waited retries q (answered v) st = apply_answer-waited _ st

  -- A pass asks each query once, and leaves at most all of them.
  IsPassed : List Query → Asked R → Asked R × List Query → Type 0
  IsPassed queries st (st', pending) =
      ((st'.calls ≡ st.calls + length queries) × (st'.waited ≡ st.waited))
      × (length pending ≤ length queries)

  add_pending-IsPassed :
      (again : Bool) (q : Query) (queries pending : List Query) (st st' st'' : Asked R)
      → (st'.calls ≡ suc st.calls) × (st'.waited ≡ st.waited)
      → IsPassed queries st' (st'', pending)
      → IsPassed (q ∷ queries) st (st'', if again then q ∷ pending else pending)
  unfolding IsPassed
  add_pending-IsPassed false q queries pending st st' st'' (c, w) ((c', w'), l) =
      ((omega arith, omega arith), omega arith)
  add_pending-IsPassed true q queries pending st st' st'' (c, w) ((c', w'), l) =
      ((omega arith, omega arith), omega arith)

  pass-IsPassed :
      (retries : ℕ) (queries : List Query) (st : Asked R)
      → Ensures (IsPassed queries st) (pass source retries queries st)
  unfolding pass ask_query IsPassed
  pass-IsPassed retries [] st = returns ((omega arith, omega arith), omega arith)
  pass-IsPassed retries (q ∷ queries) st =
      let asked = record st { calls = suc st.calls } in
      Ensures-bind _ _ (handle-waited retries q (source.ask st.calls q) asked) λ r h.
        Ensures-bind _ _ (pass-IsPassed retries queries r.0)
          λ r' h'. returns (add_pending-IsPassed r.1 q queries r'.1 st r.0 r'.0 h h')

  -- The seconds that are waited at most with so many retries.
  unfoldable pub longest_wait : ℕ → ℕ
  unfolding wait_time
  longest_wait zero = 0
  longest_wait (suc retries) = wait_time source retries + longest_wait retries

  pub IsBounded : ℕ → List Query → Asked R → Asked R → Type 0
  IsBounded retries queries st st' =
      (st'.calls ≤ st.calls + length queries * suc retries)
      × (st'.waited ≤ st.waited + longest_wait retries)

  after_pass :
      (retries : ℕ) (queries pending : List Query) (st st' : Asked R)
      → IsPassed queries st (st', pending)
      → ((qs : List Query) (s : Asked R)
          → Ensures (IsBounded retries qs s) (get_query_results source retries qs s))
      → Ensures (IsBounded (suc retries) queries st) (elim pending [
        | [] ↦ ok st'
        | q ∷ qs ↦
            get_query_results source retries
              (q ∷ qs)
              (record st' { waited = st'.waited + wait_time source retries })
      ])
  unfolding IsPassed IsBounded longest_wait
  after_pass retries queries [] st st' ((c, w), l) ih =
      returns
        (more_calls st.calls st'.calls (length queries) 0 retries (omega arith) l, omega arith)
  after_pass retries queries (q ∷ qs) st st' ((c, w), l) ih =
      Ensures-map _ (ih (q ∷ qs) (record st' { waited = st'.waited + wait_time source retries }))
        λ s' k. (
          more_calls st.calls s'.calls (length queries) (suc (length qs)) retries
              (omega (arith, k.0)) l,
          omega (arith, k.1),
        )

  get_query_results-IsBounded :
      (retries : ℕ) (queries : List Query) (st : Asked R)
      → Ensures (IsBounded retries queries st) (get_query_results source retries queries st)
  unfolding get_query_results IsPassed IsBounded longest_wait
  get_query_results-IsBounded zero queries st =
      Ensures-bind _ _ (pass-IsPassed 0 queries st)
        λ r h. returns (omega (arith, h.0.0), omega (arith, h.0.1))
  get_query_results-IsBounded (suc retries) queries st =
      Ensures-bind _ _ (pass-IsPassed (suc retries) queries st)
        λ r h. after_pass retries queries r.1 st r.0 h (get_query_results-IsBounded retries)

  -- If the queries of a report succeed with `MaxRetries` retries, then the number of queries made is at most
  -- six for each of them, and at most 62 seconds were slept in all.
  pub get_query_results-bounded :
      (queries : List Query) (st : Asked R)
      → Ensures
          (λ (st' : Asked R).
            (st'.calls ≤ st.calls + length queries * 6) × (st'.waited ≤ st.waited + 62))
          (get_query_results source max_retries queries st)
  unfolding longest_wait wait_time IsBounded
  get_query_results-bounded queries st = get_query_results-IsBounded 5 queries st
