-- ===== src/Collector/Results/Row.antt =====
-- The row of one key depends on the samples with that key only.
use koku_metrics_operator.Base.{
  ◌≡◌, refl, ap, ◌∙◌, sym, some-ne-none, String, str_eq, eq_iff, Option, none, some, List, [], ◌∷◌,
  if◌then◌else◌, Bool-cases, inl, inr,
}
use koku_metrics_operator.Base.Dict.{lookup, insert, lookup-insert}
use koku_metrics_operator.Collector.Query.{Query}
use mathlib.Core.Option.{some-injective}
use koku_metrics_operator.Collector.Results.{
  Stream, stream_row, set_row, iterate_matrix, Lib, Values, Results, Sample, row_or_new,
  generate_key, sample_row, iterate_vector,
}

module _ {F : Type 0} (lib : Lib F) where
  -- The row of a key after the samples of a vector that have this key, each in turn.
  unfoldable pub row_after : String → Query → List (Sample F) → Option Values → Option Values
  unfolding generate_key sample_row
  row_after key q [] row = row
  row_after key q (sample ∷ vector) row = row_after key q vector (
      if str_eq (generate_key sample.metric q.row_key) key
      then some (sample_row lib q sample (row_or_new row))
      else row)

  same_row :
      (key : String) (q : Query) (sample : Sample F) (results : Results)
      → (let obj = generate_key sample.metric q.row_key in
          (if str_eq obj key
            then some (sample_row lib q sample (row_or_new (lookup obj results)))
            else lookup key results)
          ≡ (if str_eq obj key
              then some (sample_row lib q sample (row_or_new (lookup key results)))
              else lookup key results))
  same_row key q sample results =
      let obj = generate_key sample.metric q.row_key in
      elim (Bool-cases (str_eq obj key)) [
        | inr e ↦ rw e refl
        | inl e ↦
            let same : obj ≡ key = (eq_iff obj key).0 e in
            ap
              (λ (k : String).
                if str_eq obj key
                then some (sample_row lib q sample (row_or_new (lookup k results)))
                else lookup key results)
              same
      ]

  -- After the results of an instant query, the row of each key is what the samples with this key
  -- make of it, in their order; samples with other keys leave it.
  pub iterate_vector-row_after :
      (key : String) (q : Query) (vector : List (Sample F)) (results : Results)
      → lookup key (iterate_vector lib vector q results)
        ≡ row_after key q vector (lookup key results)
  unfolding iterate_vector row_after
  iterate_vector-row_after key q [] results = refl
  iterate_vector-row_after key q (sample ∷ vector) results =
      let obj = generate_key sample.metric q.row_key in
      let row = sample_row lib q sample (row_or_new (lookup obj results)) in
      iterate_vector-row_after key q vector (insert obj row results)
      ∙ ap (λ o. row_after key q vector o)
          (lookup-insert obj key row results ∙ same_row key q sample results)

  -- The row of a key after the series of a matrix that have this key, each in turn; a series of
  -- another key leaves it.
  unfoldable pub row_after_matrix : String → Query → List (Stream F) → Option Values → Option Values
  unfolding generate_key stream_row
  row_after_matrix key q [] row = row
  row_after_matrix key q (stream ∷ matrix) row = row_after_matrix key q matrix (
      if str_eq (generate_key stream.metric q.row_key) key
      then stream_row lib q stream (row_or_new row)
      else row)

  same_stream :
      (key : String) (q : Query) (stream : Stream F) (results : Results)
      → (let obj = generate_key stream.metric q.row_key in
          (if str_eq obj key
            then stream_row lib q stream (row_or_new (lookup obj results))
            else lookup key results)
          ≡ (if str_eq obj key
              then stream_row lib q stream (row_or_new (lookup key results))
              else lookup key results))
  same_stream key q stream results =
      let obj = generate_key stream.metric q.row_key in
      elim (Bool-cases (str_eq obj key)) [
        | inr e ↦ rw e refl
        | inl e ↦
            let same : obj ≡ key = (eq_iff obj key).0 e in
            ap
              (λ (k : String).
                if str_eq obj key
                then stream_row lib q stream (row_or_new (lookup k results))
                else lookup key results)
              same
      ]

  -- What follows a series, by what its row is.
  next_stream :
      (key : String) (q : Query) (matrix : List (Stream F)) (obj : String) (results after : Results)
      (o : Option Values)
      → ((next : Results)
          → iterate_matrix lib matrix q next ≡ some after
          → lookup key after ≡ row_after_matrix key q matrix (lookup key next))
      → elim (set_row lib obj results o) [
        | none ↦ none
        | some next ↦ iterate_matrix lib matrix q next
      ]
        ≡ some after
      → lookup key after
        ≡ row_after_matrix key q matrix (if str_eq obj key then o else lookup key results)
  unfolding set_row
  next_stream key q matrix obj results after none ih h = absurd (some-ne-none _ (sym h))
  next_stream key q matrix obj results after (some values) ih h =
      ih (insert obj values results) h
      ∙ ap (λ o. row_after_matrix key q matrix o) (lookup-insert obj key values results)

  -- If the results of a range query are gathered without a panic, then the row of each key is what
  -- the series with this key make of it, in their order; series with other keys leave it.
  pub iterate_matrix-row_after :
      (key : String) (q : Query) (matrix : List (Stream F)) (results after : Results)
      → iterate_matrix lib matrix q results ≡ some after
      → lookup key after ≡ row_after_matrix key q matrix (lookup key results)
  unfolding iterate_matrix row_after_matrix
  iterate_matrix-row_after key q [] results after h =
      ap (λ r. lookup key r) (sym (some-injective _ _ h))
  iterate_matrix-row_after key q (stream ∷ matrix) results after h =
      let obj = generate_key stream.metric q.row_key in
      next_stream key q matrix obj results after
        (stream_row lib q stream (row_or_new (lookup obj results)))
        (λ next e. iterate_matrix-row_after key q matrix next after e) h
      ∙ ap (λ o. row_after_matrix key q matrix o) (same_stream key q stream results)
