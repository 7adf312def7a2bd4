-- ===== src/Collector/Reports/Grows.antt =====
-- What GenerateReports does to the report files.
use koku_metrics_operator.Base.{
  ℕ, String, ◌<>◌, str_eq, Option, none, some, List, [], ◌∷◌, length, take, drop, take-length, ◌≡◌,
  refl, subst, sym, ap, Result, ok, err, Bool-cases, inl, inr, eq_iff,
}
use koku_metrics_operator.Base.Dict.{lookup, insert, lookup-insert}
use koku_metrics_operator.Base.Time.{Time}
use koku_metrics_operator.Collector.Rows.{CsvStruct, csv_header, dates}
use koku_metrics_operator.Collector.Rows.Dates.{Range, dates_string}
use koku_metrics_operator.Collector.Report.{Disk, ReportData, write_report}
use koku_metrics_operator.Collector.Report.Append.{lines_in, write_report-append}
use koku_metrics_operator.Collector.Query.{
  Query, QueryError, failure, panicked, Asked, max_retries, get_query_results,
}
use koku_metrics_operator.Collector.Results.{Results, iterate_matrix, iterate_vector}
use koku_metrics_operator.Collector.Queries.Node.{namespace_queries}
use koku_metrics_operator.Collector.Queries.Pod.{pod_queries}
use koku_metrics_operator.Collector.Queries.Storage.{vol_queries}
use koku_metrics_operator.Collector.Queries.Vm.{vm_queries}
use koku_metrics_operator.Collector.Queries.NvidiaGpu.{
  nvidia_gpu_memory_capacity_non_mig_queries, nvidia_gpu_memory_capacity_mig_queries,
  nvidia_gpu_utilization_queries, nvidia_gpu_max_slices_queries,
}
use koku_metrics_operator.Collector.Reports.{
  ReportsEnv, Gathered, Done, disk_of, then_do, with_results, asked_results, written, write_rows,
  get_query_range_results, get_instant_results, node_report, pod_report, storage_report, vm_report,
  namespace_report, nvidia_gpu_report, cost_management,
}

abbrev pub lines_of : Option Disk → List String
lines_of none = []
lines_of (some d) = lines_in d.file

-- The lines of a report; a file that is not there has none.
abbrev pub lines_of_report : String → List (String × Disk) → List String
lines_of_report name files = lines_of (lookup name files)

-- Every report has the lines that it had, in front.
pub record Grows (w w' : Gathered) : Type 0 where
  pub kept :
      (name : String)
      → take (length (lines_of_report name w.files)) (lines_of_report name w'.files)
        ≡ lines_of_report name w.files

take_trans :
    (a b c : List String) → take (length a) b ≡ a → take (length b) c ≡ b → take (length a) c ≡ a
take_trans [] b c h k = refl
take_trans (x ∷ a) [] c h k = cc
take_trans (x ∷ a) (y ∷ b) [] h k = cc
take_trans (x ∷ a) (y ∷ b) (z ∷ c) h k =
    let ih = take_trans a b c (ap (λ l. drop 1 l) h) (ap (λ l. drop 1 l) k) in cc ih

pub Grows-refl : (w : Gathered) → Grows w w
Grows-refl w = record { kept = λ name. take-length (lines_of_report name w.files) }

pub Grows-trans : (u v w : Gathered) → Grows u v → Grows v w → Grows u w
Grows-trans u v w h k = record {
  kept = λ name.
      take_trans (lines_of_report name u.files) (lines_of_report name v.files)
        (lines_of_report name w.files) (h.kept name) (k.kept name);
}

pub then_do-Grows :
    (w : Gathered) (r : Done) (rest : Gathered → Done)
    → Grows w r.1
    → ((v : Gathered) → Grows v (rest v).1)
    → Grows w (then_do r rest).1
unfolding then_do
then_do-Grows w (some e, v) rest h k = h
then_do-Grows w (none, v) rest h k = Grows-trans w v (rest v).1 h (k v)

pub with_results-Grows :
    (w : Gathered) (r : Result String Results × Gathered) (rest : Results → Gathered → Done)
    → Grows w r.1
    → ((results : Results) (v : Gathered) → Grows v (rest results v).1)
    → Grows w (with_results r rest).1
unfolding with_results
with_results-Grows w (err e, v) rest h k = h
with_results-Grows w (ok results, v) rest h k = Grows-trans w v (rest results v).1 h (k results v)

asked_results-Grows :
    (w : Gathered) (r : Result QueryError (Asked Results)) → Grows w (asked_results w r).1
unfolding asked_results
asked_results-Grows w (ok st) = record { kept = λ name. take-length (lines_of_report name w.files) }
asked_results-Grows w (err (failure e)) = Grows-refl w
asked_results-Grows w (err panicked) = Grows-refl w

lines_of_disk : (o : Option Disk) → lines_in (disk_of o).file ≡ lines_of o
unfolding disk_of
lines_of_disk none = refl
lines_of_disk (some d) = refl

-- A report that is put in the place of one whose lines it keeps.
insert-Grows :
    (name : String) (disk : Disk) (files : List (String × Disk))
    → take (length (lines_of_report name files)) (lines_in disk.file) ≡ lines_of_report name files
    → (other : String)
    → take (length (lines_of_report other files)) (lines_of_report other (insert name disk files))
      ≡ lines_of_report other files
insert-Grows name disk files kept other =
    subst
      (λ o. take (length (lines_of_report other files)) (lines_of o) ≡ lines_of_report other files)
      (sym (lookup-insert name other disk files))
      (elim (Bool-cases (str_eq name other)) [
        | inr e ↦ rw e (take-length (lines_of_report other files))
        | inl e ↦ rw e (
            subst
              (λ n.
                take (length (lines_of_report n files)) (lines_in disk.file)
                ≡ lines_of_report n files)
              ((eq_iff name other).0 e) kept)
      ])

module _ {F : Type 0} (env : ReportsEnv F) where
  written-Grows :
      (name what : String) (r : Result String ℕ × Disk) (w : Gathered)
      → take (length (lines_of_report name w.files)) (lines_in r.1.file)
        ≡ lines_of_report name w.files
      → Grows w (written env name what r w).1
  unfolding written
  written-Grows name what (ok size, disk) w kept = record {
    kept = insert-Grows name disk w.files kept;
  }
  written-Grows name what (err e, disk) w kept = record {
    kept = insert-Grows name disk w.files kept;
  }

  pub write_rows-Grows :
      (prefix month what : String) (query_data : List CsvStruct) (empty : CsvStruct) (w : Gathered)
      → Grows w (write_rows env prefix month what query_data empty w).1
  unfolding write_rows
  write_rows-Grows prefix month what query_data empty w =
      let name = prefix <> (month <> ".csv") in
      let d : ReportData = record {
        query_data = query_data;
        headers = csv_header empty;
        prefix = dates_string (dates empty);
      } in
      let disk = disk_of (lookup name w.files) in
      let r = write_report (env.faults name) d disk in
      written-Grows name what r w (
        subst (λ lines. take (length lines) (lines_in r.1.file) ≡ lines)
          (lines_of_disk (lookup name w.files)) (write_report-append (env.faults name) d disk))

  pub range_results-Grows :
      (ts : Range) (queries : List Query) (w : Gathered)
      → Grows w (get_query_range_results env ts queries w).1
  unfolding get_query_range_results
  range_results-Grows ts queries w = asked_results-Grows w (
      get_query_results
        (record {
          ask = env.query_range ts;
          iterate = λ matrix q results. iterate_matrix env.lib matrix q results;
        })
        max_retries queries (record { calls = w.calls; results = []; waited = 0 }))

  pub instant_results-Grows :
      (ts : Time) (queries : List Query) (w : Gathered)
      → Grows w (get_instant_results env ts queries w).1
  unfolding get_instant_results
  instant_results-Grows ts queries w = asked_results-Grows w (
      get_query_results
        (record {
          ask = env.query ts;
          iterate = λ vector q results. some (iterate_vector env.lib vector q results);
        })
        max_retries queries (record { calls = w.calls; results = []; waited = 0 }))

  -- A report of the results of queries over a range.
  of_range-Grows :
      (ts : Range) (queries : List Query) (w : Gathered) (rest : Results → Gathered → Done)
      → ((results : Results) (v : Gathered) → Grows v (rest results v).1)
      → Grows w (with_results (get_query_range_results env ts queries w) rest).1
  of_range-Grows ts queries w rest h =
      with_results-Grows w (get_query_range_results env ts queries w) rest
        (range_results-Grows ts queries w) h

  module _ (month : String) (ts : Range) where
    node_report-Grows : (w : Gathered) → Grows w (node_report env month ts w).1
    unfolding node_report
    node_report-Grows w = write_rows-Grows _ month _ _ _ w

    pod_report-Grows : (w : Gathered) → Grows w (pod_report env month ts w).1
    unfolding pod_report
    pod_report-Grows w =
        of_range-Grows ts pod_queries w _ (λ results v. write_rows-Grows _ month _ _ _ v)

    storage_report-Grows : (w : Gathered) → Grows w (storage_report env month ts w).1
    unfolding storage_report
    storage_report-Grows w =
        of_range-Grows ts vol_queries w _ (λ results v. write_rows-Grows _ month _ _ _ v)

    vm_report-Grows : (w : Gathered) → Grows w (vm_report env month ts w).1
    unfolding vm_report
    vm_report-Grows w =
        of_range-Grows ts vm_queries w _ (λ results v. write_rows-Grows _ month _ _ _ v)

    namespace_report-Grows : (w : Gathered) → Grows w (namespace_report env month ts w).1
    unfolding namespace_report
    namespace_report-Grows w =
        of_range-Grows ts namespace_queries w _ (λ results v. write_rows-Grows _ month _ _ _ v)

    nvidia_gpu_report-Grows : (w : Gathered) → Grows w (nvidia_gpu_report env month ts w).1
    unfolding nvidia_gpu_report
    nvidia_gpu_report-Grows w =
        of_range-Grows ts nvidia_gpu_memory_capacity_mig_queries w _ (λ mig w₁.
          of_range-Grows ts nvidia_gpu_memory_capacity_non_mig_queries w₁ _ (λ non_mig w₂.
            of_range-Grows ts nvidia_gpu_utilization_queries w₂ _ (λ used w₃.
              of_range-Grows ts nvidia_gpu_max_slices_queries w₃ _
                (λ slices w₄. write_rows-Grows _ month _ _ _ w₄))))

    pub cost_management-Grows : (w : Gathered) → Grows w (cost_management env month ts w).1
    unfolding cost_management
    cost_management-Grows w = then_do-Grows w _ _ (node_report-Grows w) (λ w₁.
        then_do-Grows w₁ _ _ (pod_report-Grows w₁) (λ w₂.
          then_do-Grows w₂ _ _ (storage_report-Grows w₂) (λ w₃.
            then_do-Grows w₃ _ _ (vm_report-Grows w₃)
              (λ w₄. then_do-Grows w₄ _ _ (namespace_report-Grows w₄) nvidia_gpu_report-Grows))))
