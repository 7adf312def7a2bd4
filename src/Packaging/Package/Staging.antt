-- ===== src/Packaging/Package/Staging.antt =====
-- What becomes of the files that an earlier run left in the staging directory.
use koku_metrics_operator.Base.{
  ◌≡◌, ◌≢◌, refl, ap, String, ◌<>◌, none, List, [], ◌∷◌, Result, ok, err, ◌⊎◌, inl, inr,
}
use koku_metrics_operator.Dirconfig
use koku_metrics_operator.Dirconfig.{FileSystem, remove_each, remove_contents}
use koku_metrics_operator.Packaging.Package.{
  FilesAction, Dirs, PackEnv, Packager, clear_staging, stage_listed, move_or_copy_files,
  pack_checked, pack_staged, package_reports,
}

-- Listing a directory and removing a file do not fail.
pub record CanRemove (fs : FileSystem) : Type 0 where
  pub listing : (dir : String) → fs.list_error dir ≡ none
  pub removing : (path : String) → fs.remove_error path ≡ none

module _ (env : PackEnv) (can : CanRemove env.fs) where
  remove_each_all : (dir : String) (files : List String) → remove_each env.fs dir files ≡ (none, [])
  unfolding remove_each
  remove_each_all dir [] = refl
  remove_each_all dir (f ∷ files) =
      rw (can.removing (dir <> ("/" <> f)), remove_each) (remove_each_all dir files)

  remove_contents_all :
      (dir : String) (files : List String) → remove_contents env.fs dir files ≡ (none, [])
  unfolding remove_contents
  remove_contents_all dir files = rw (can.listing dir, remove_contents) (remove_each_all dir files)

  clear_staging_all :
      (dirs : Dirs) → clear_staging env "" dirs ≡ (ok tt, record dirs { staging = [] })
  unfolding clear_staging
  clear_staging_all dirs = rw (remove_contents_all env.dir_cfg.staging dirs.staging)

  stage_forgets :
      (action : FilesAction) (files : List String) (dirs : Dirs)
      → stage_listed env action "" (ok files) dirs
          ≡ stage_listed env action "" (ok files) (record dirs { staging = [] })
        ⊎ (files ≡ [])
  unfolding stage_listed
  stage_forgets action [] dirs = inr refl
  stage_forgets action (file ∷ files) dirs =
      inl (rw (clear_staging_all dirs, clear_staging_all (record dirs { staging = [] })))

  get_files_all :
      (dir : String) (files : List String) → Dirconfig.get_files env.fs dir files ≡ ok files
  unfolding Dirconfig.get_files
  get_files_all dir files = rw (can.listing dir, Dirconfig.get_files) refl

  move_or_copy_files-forgets :
      (action : FilesAction) (dirs : Dirs)
      → dirs.reports ≢ []
      → move_or_copy_files env action "" dirs
        ≡ move_or_copy_files env action "" (record dirs { staging = [] })
  unfolding move_or_copy_files
  move_or_copy_files-forgets action dirs some_reports =
      elim (stage_forgets action dirs.reports dirs) [
        | inl e ↦ rw (get_files_all env.dir_cfg.reports dirs.reports, move_or_copy_files) e
        | inr e ↦ absurd (some_reports e)
      ]

  pack_checked-forgets :
      (action : FilesAction) (p : Packager) (dirs : Dirs) (r : Result String Dirconfig.Disk)
      → dirs.reports ≢ []
      → (pack_checked env action "" p dirs r).0
        ≡ (pack_checked env action "" p (record dirs { staging = [] }) r).0
  unfolding pack_checked
  pack_checked-forgets action p dirs (err e) some_reports = refl
  pack_checked-forgets action p dirs (ok existing) some_reports =
      ap (λ s. (pack_staged env p s).0)
        (move_or_copy_files-forgets action (record dirs { existing = existing }) some_reports)

-- If the status holds no packaging error, there are reports, and directories can be read and
-- emptied, then a packaging run has the same result as over an empty staging directory: files that
-- an earlier run left there are not packaged.
pub package_reports-forgets_staged :
    (env : PackEnv) (action : FilesAction) (p : Packager) (dirs : Dirs)
    → CanRemove env.fs
    → dirs.reports ≢ []
    → (package_reports env action "" p dirs).0
      ≡ (package_reports env action "" p (record dirs { staging = [] })).0
unfolding package_reports
package_reports-forgets_staged env action p dirs can some_reports =
    pack_checked-forgets env can action p dirs _ some_reports
