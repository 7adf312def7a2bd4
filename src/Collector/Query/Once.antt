-- ===== src/Collector/Query/Once.antt =====
-- A successful collection of answers applies each query once.
use koku_metrics_operator.Base.{
  ℕ, zero, suc, ◌+◌, ◌≡◌, refl, sym, subst, Bool, true, false, Option, none, some, List, [], ◌∷◌,
  ◌++◌, append_assoc, ok, Ensures, returns, fails, Ensures-bind, Ensures-map, Ensures-both,
  if◌then◌else◌,
}
use koku_metrics_operator.Collector.Query.{
  Query, Answer, answered, other_type, failed, Asked, Source, apply_answer, handle, ask_query, pass,
  wait_time, get_query_results,
}

module _ {V R : Type 0} (source : Source V R) where
  -- The second results are the first with an answer to each of the queries, in some order.
  pub data Applied : List Query → R → R → Type 0 where
    nothing : {r : R} → Applied [] r r
    next :
        {n : ℕ} {v : V} {q : Query} {r s t : R} (before after : List Query)
        → source.ask n q ≡ answered v
        → source.iterate v q r ≡ some s
        → Applied (before ++ after) s t
        → Applied (before ++ q ∷ after) r t

  -- What one query leaves to be applied: it, or nothing.
  Leaves : Query → Asked R → Asked R × Bool → Type 0
  Leaves q st (st', again) =
      (before after : List Query) (t : R)
      → Applied (before ++ (if again then q ∷ after else after)) st'.results t
      → Applied (before ++ q ∷ after) st.results t

  apply_answer-Leaves :
      (q : Query) (v : V) (st : Asked R) (n : ℕ) (o : Option R)
      → source.ask n q ≡ answered v
      → source.iterate v q st.results ≡ o
      → Ensures (Leaves q st) (apply_answer source o st)
  unfolding apply_answer Leaves
  apply_answer-Leaves q v st n none asked e = fails
  apply_answer-Leaves q v st n (some r) asked e =
      returns (λ before after t h. next before after asked e h)

  handle-Leaves :
      (retries : ℕ) (q : Query) (st : Asked R) (n : ℕ) (a : Answer V)
      → source.ask n q ≡ a
      → Ensures (Leaves q st) (handle source retries q a st)
  unfolding handle Leaves
  handle-Leaves zero q st n (failed e) asked = fails
  handle-Leaves (suc retries) q st n (failed e) asked = returns (λ before after t h. h)
  handle-Leaves retries q st n (other_type t) asked = fails
  handle-Leaves retries q st n (answered v) asked = apply_answer-Leaves q v st n _ asked refl

  ask_query-Leaves :
      (retries : ℕ) (q : Query) (st : Asked R)
      → Ensures (Leaves q st) (ask_query source retries q st)
  unfolding ask_query Leaves
  ask_query-Leaves retries q st =
      handle-Leaves retries q (record st { calls = suc st.calls }) st.calls (source.ask st.calls q)
        refl

  LeavesAll : List Query → Asked R → Asked R × List Query → Type 0
  LeavesAll queries st (st', pending) =
      (before : List Query) (t : R)
      → Applied (before ++ pending) st'.results t
      → Applied (before ++ queries) st.results t

  add_pending :
      (again : Bool) (q : Query) (queries pending : List Query) (st st' st'' : Asked R)
      → Leaves q st (st', again)
      → LeavesAll queries st' (st'', pending)
      → LeavesAll (q ∷ queries) st (st'', if again then q ∷ pending else pending)
  unfolding Leaves LeavesAll
  add_pending false q queries pending st st' st'' this rest before t h =
      this before queries t (rest before t h)
  add_pending true q queries pending st st' st'' this rest before t h = this before queries t (
      subst (λ (qs : List Query). Applied qs st'.results t) (append_assoc before (q ∷ []) queries)
        (rest (before ++ q ∷ []) t (
          subst (λ (qs : List Query). Applied qs st''.results t)
            (sym (append_assoc before (q ∷ []) pending)) h)))

  pass-LeavesAll :
      (retries : ℕ) (queries : List Query) (st : Asked R)
      → Ensures (LeavesAll queries st) (pass source retries queries st)
  unfolding pass LeavesAll
  pass-LeavesAll retries [] st = returns (λ before t h. h)
  pass-LeavesAll retries (q ∷ queries) st = Ensures-bind _ _ (ask_query-Leaves retries q st) λ r h.
      Ensures-bind _ _ (pass-LeavesAll retries queries r.0)
        λ r' h'. returns (add_pending r.1 q queries r'.1 st r.0 r'.0 h h')

  apply_answer-no_retry :
      (o : Option R) (st : Asked R)
      → Ensures (λ (r : Asked R × Bool). r.1 ≡ false) (apply_answer source o st)
  unfolding apply_answer
  apply_answer-no_retry none st = fails
  apply_answer-no_retry (some r) st = returns refl

  handle-no_retry :
      (q : Query) (a : Answer V) (st : Asked R)
      → Ensures (λ (r : Asked R × Bool). r.1 ≡ false) (handle source 0 q a st)
  unfolding handle
  handle-no_retry q (failed e) st = fails
  handle-no_retry q (other_type t) st = fails
  handle-no_retry q (answered v) st = apply_answer-no_retry _ st

  -- Without retries left, every query is answered or there is an error.
  pass-no_retry :
      (queries : List Query) (st : Asked R)
      → Ensures (λ (r : Asked R × List Query). r.1 ≡ []) (pass source 0 queries st)
  unfolding pass ask_query
  pass-no_retry [] st = returns refl
  pass-no_retry (q ∷ queries) st =
      Ensures-bind _ _
        (handle-no_retry q (source.ask st.calls q) (record st { calls = suc st.calls }))
        λ r h. Ensures-bind _ _ (pass-no_retry queries r.0) λ r' h'. returns (rw h h')

  abbrev Goal : ℕ → List Query → Asked R → Type 0
  Goal retries queries st =
      Ensures (λ (st' : Asked R). Applied queries st.results st'.results)
        (get_query_results source retries queries st)

  -- What follows a pass, when retries are left.
  after_pass :
      (retries : ℕ) (queries pending : List Query) (st st' : Asked R)
      → LeavesAll queries st (st', pending)
      → ((qs : List Query) (s : Asked R) → Goal retries qs s)
      → Ensures
          (λ (s' : Asked R). Applied queries st.results s'.results)
          (elim pending [
            | [] ↦ ok st'
            | q ∷ qs ↦
                get_query_results source retries
                  (q ∷ qs)
                  (record st' { waited = st'.waited + wait_time source retries })
          ])
  unfolding LeavesAll
  after_pass retries queries [] st st' h ih = returns (h [] st'.results nothing)
  after_pass retries queries (q ∷ qs) st st' h ih =
      Ensures-map _ (ih (q ∷ qs) (record st' { waited = st'.waited + wait_time source retries }))
        λ s' k. h [] s'.results k

  -- If the queries of a report succeed, with whatever number of retries, then their results are the
  -- results before with one answer of the connection to each query, each applied once, in some order.
  pub get_query_results-applies_once :
      (retries : ℕ) (queries : List Query) (st : Asked R)
      → Ensures
          (λ (st' : Asked R). Applied queries st.results st'.results)
          (get_query_results source retries queries st)
  unfolding get_query_results LeavesAll
  get_query_results-applies_once zero queries st =
      Ensures-bind _ _ (Ensures-both _ (pass-LeavesAll 0 queries st) (pass-no_retry queries st))
        λ r h. returns (h.0 [] r.0.results (rw h.1 nothing))
  get_query_results-applies_once (suc retries) queries st =
      Ensures-bind _ _ (pass-LeavesAll (suc retries) queries st)
        λ r h. after_pass retries queries r.1 st r.0 h (get_query_results-applies_once retries)
