-- ===== src/Controller/Package/Loss.antt =====
-- When packaging runs, and whether its result depends on the staging directory.
use koku_metrics_operator.Base.{ℕ, ◌*◌, ◌+◌, ◌≤◌, ◌<◌, ◌≡◌, ◌≢◌, ◌↔◌, ap, true, [], arith}
use koku_metrics_operator.Base.Time.{Time, minute}
use koku_metrics_operator.Packaging.Package.{FilesAction, PackEnv, Dirs}
use koku_metrics_operator.Packaging.Package.Staging.{CanRemove, package_reports-forgets_staged}
use koku_metrics_operator.Controller.Package.{PackStatus, record_packed, package_files, check_cycle}

-- After a first success, what is done in cycles of at least a minute is due at a time exactly if
-- that time is so many minutes or more after the last success.
pub check_cycle-iff_elapsed :
    (cycle now last : ℕ)
    → 0 < last
    → 0 < cycle
    → (check_cycle cycle now last ≡ true) ↔ (last + cycle * minute ≤ now)
unfolding check_cycle
check_cycle-iff_elapsed cycle now last before positive = (λ h. ground arith, λ h. ground arith)

-- If there are reports, and directories can be read and emptied, then a run of packageFiles records
-- the same status as over an empty staging directory, whatever error the last packaging left in the
-- status.
pub package_files-forgets_staged :
    (env : PackEnv) (action : FilesAction) (now : Time) (st : PackStatus) (dirs : Dirs)
    → CanRemove env.fs
    → dirs.reports ≢ []
    → (package_files env action now st dirs).0
      ≡ (package_files env action now st (record dirs { staging = [] })).0
unfolding package_files
package_files-forgets_staged env action now st dirs can some_reports =
    let st' = record st { packaging_error = "" } in
    ap (λ r. record_packed now r st')
      (package_reports-forgets_staged env action st'.packager dirs can some_reports)
