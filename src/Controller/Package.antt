-- ===== src/Controller/Package.antt =====
-- When packaging and uploading are due, and what is recorded of a packaging run: checkCycle,
-- packageFilesWithCycle, packageFiles and filesToUpload of
-- internal/controller/costmanagementmetricsconfig_controller.go.
pub mod Loss
use koku_metrics_operator.Base.{
  ℕ, ◌-◌, ◌/◌, String, Bool, true, false, ◌&&◌, Option, none, some, List, [], ◌∷◌, Result, ok, err,
  if◌then◌else◌, ltb, leb, ◌==◌,
}
use koku_metrics_operator.Base.Time.{Time, is_zero, minute}
use koku_metrics_operator.Dirconfig
use koku_metrics_operator.Packaging.Package.{
  FilesAction, PackError, no_reports, failed, Dirs, PackEnv, Packager, Packed, package_reports,
}

-- Are so many whole minutes past? A duration into the future rounds towards 0 as well.
abbrev minutes_reach : ℕ → Time → Time → Bool
minutes_reach cycle now last =
    if ltb now last
    then (last - now) / minute == 0 && cycle == 0
    else leb cycle ((now - last) / minute)

-- checkCycle at the present time; the zero time stands for "never".
unfoldable pub check_cycle : ℕ → Time → Time → Bool
check_cycle cycle now last = if is_zero last then true else minutes_reach cycle now last

-- The packaging status of the resource.
pub record PackStatus : Type 0 where
  pub packaging_error : String
  pub last_successful_packaging_time : Time
  pub packager : Packager

error_text : PackError → String
error_text no_reports = "reports not found"
error_text (failed e) = e

record_packed : Time → Result PackError (Option Packed) → PackStatus → PackStatus
unfolding error_text
record_packed now (err e) st = record st { packaging_error = error_text e }
record_packed now (ok none) st = st
record_packed now (ok (some packed)) st = record st {
  last_successful_packaging_time = now;
  packager = packed.packager;
}

-- packageFiles
unfoldable pub package_files : PackEnv → FilesAction → Time → PackStatus → Dirs → PackStatus × Dirs
unfolding record_packed
package_files env action now st dirs =
    let st' = record st { packaging_error = "" } in
    let (result, dirs') = package_reports env action st'.packaging_error st'.packager dirs in
    (record_packed now result st', dirs')

-- packageFilesWithCycle
unfoldable pub package_files_with_cycle :
    PackEnv → FilesAction → ℕ → Time → PackStatus → Dirs → PackStatus × Dirs
package_files_with_cycle env action cycle now st dirs =
    if check_cycle cycle now st.last_successful_packaging_time
    then package_files env action now st dirs
    else (st, dirs)

-- filesToUpload
unfoldable pub files_to_upload :
    Dirconfig.FileSystem → String → ℕ → Time → Time → List String → Result String (List String)
files_to_upload fs upload cycle now last names =
    if check_cycle cycle now last then Dirconfig.get_files fs upload names else ok []
