-- ===== src/Collector/Query.antt =====
-- The queries of a report with their retries: getQueryRangeResults and getQueryResults of
-- internal/collector/prometheus.go, which differ in the type of answer, a parameter here. A context
-- that times out is one of the errors of the connection.
pub mod Bounds
pub mod Once
use koku_metrics_operator.Base.{
  ℕ, zero, suc, ◌+◌, ◌-◌, ◌^◌, String, ◌<>◌, Option, none, some, Bool, true, false, if◌then◌else◌,
  List, [], ◌∷◌, Result, ok, err, ◌>>=◌,
}

-- saveQueryValue
pub record SaveQueryValue : Type 0 where
  pub val_name : String
  pub method : String
  pub transformed_name : String

-- query; a Go map is the list of its entries.
pub record Query : Type 0 where
  pub name : String
  pub query_string : String
  pub metric_key : List (String × String)
  pub metric_key_regex : List (String × String)
  pub query_value : Option SaveQueryValue
  pub row_key : List String

-- What the connection answers: a value of the expected type, one of another type, or an error.
pub data Answer (V : Type 0) : Type 0 where
  answered : V → Answer V
  other_type : String → Answer V
  failed : String → Answer V

pub data QueryError : Type 0 where
  failure : String → QueryError
  panicked : QueryError

-- MaxRetries
abbrev pub max_retries : ℕ
max_retries = 5

-- The queries that were made, the results so far, and the seconds that were slept.
pub record Asked (R : Type 0) : Type 0 where
  pub calls : ℕ
  pub results : R
  pub waited : ℕ

-- The connection, by the number of queries before, and `iterateMatrix` or `iterateVector`; `none` is
-- a panic.
pub record Source (V R : Type 0) : Type 0 where
  pub ask : ℕ → Query → Answer V
  pub iterate : V → Query → R → Option R

module _ {V R : Type 0} (source : Source V R) where
  apply_answer : Option R → Asked R → Result QueryError (Asked R × Bool)
  apply_answer none st = err panicked
  apply_answer (some results) st = ok (record st { results = results }, false)

  -- The answer to one query is applied to the results, or the query is to be tried again.
  handle : ℕ → Query → Answer V → Asked R → Result QueryError (Asked R × Bool)
  unfolding apply_answer
  handle zero q (failed e) st =
      err (failure ("query: " <> (q.query_string <> (": error querying prometheus: " <> e))))
  handle (suc retries) q (failed e) st = ok (st, true)
  handle retries q (other_type t) st = err (failure ("unexpected response to query, got a " <> t))
  handle retries q (answered v) st = apply_answer (source.iterate v q st.results) st

  ask_query : ℕ → Query → Asked R → Result QueryError (Asked R × Bool)
  unfolding handle
  ask_query retries q st =
      handle retries q (source.ask st.calls q) (record st { calls = suc st.calls })

  -- The loop over the queries: what it leaves, and the queries to retry in their order.
  unfoldable pub pass : ℕ → List Query → Asked R → Result QueryError (Asked R × List Query)
  unfolding ask_query
  pass retries [] st = ok (st, [])
  pass retries (q ∷ queries) st = do
    (st', again) ← ask_query retries q st
    (st'', pending) ← pass retries queries st'
    ok (st'', if again then q ∷ pending else pending)

  -- With so many retries left, after this one: 2, 4, 8, 16 and 32 seconds.
  unfoldable pub wait_time : ℕ → ℕ
  wait_time retries = 2 ^ (max_retries - retries)

  -- getQueryRangeResults and getQueryResults. Without retries left no query is pending.
  unfoldable pub get_query_results : ℕ → List Query → Asked R → Result QueryError (Asked R)
  unfolding pass wait_time
  get_query_results zero queries st = do (st', pending) ← pass 0 queries st; ok st'
  get_query_results (suc retries) queries st = do
    (st', pending) ← pass (suc retries) queries st
    elim pending [
      | [] ↦ ok st'
      | q ∷ qs ↦
          get_query_results retries (q ∷ qs)
            (record st' { waited = st'.waited + wait_time retries })
    ]
