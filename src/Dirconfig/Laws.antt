-- ===== src/Dirconfig/Laws.antt =====
-- After a successful configuration every directory exists.
use koku_metrics_operator.Base.{
  ◌≡◌, String, eq_iff, true, Option, none, some, Result, ok, err, Ensures, returns, fails,
  Ensures-ok, Ensures-bind, Bool-cases, inl, inr, arith,
}
use koku_metrics_operator.Base.Text.{join_path}
use koku_metrics_operator.Dirconfig.{
  mount_path, query_data_dir, staging_dir, upload_dir, FileSystem, Disk, DirectoryConfig, exists,
  create_unless, create, get_or_create_path, config_error, get_directory_config, check_config,
}

module _ (fs : FileSystem) where
  -- Directories are only added.
  abbrev pub Grows : Disk → Disk → Type 0
  Grows disk disk' = (path : String) → exists fs path disk ≡ true → exists fs path disk' ≡ true

  -- A call of `stat` on the path does not fail.
  abbrev pub CanStat : String → Type 0
  CanStat path = fs.stat_error path ≡ none

  -- A directory is there afterwards, and none has gone.
  record Adds (path : String) (disk disk' : Disk) : Type 0 where
    there : exists fs path disk' ≡ true
    grows : Grows disk disk'

  create_unless-Adds :
      (fault : Option String) (path : String) (disk : Disk)
      → CanStat path
      → Ensures (Adds path disk) (create_unless fs fault path disk)
  unfolding create_unless exists
  create_unless-Adds (some e) path disk can = fails
  create_unless-Adds none path disk can = returns (record {
    there = rw (can, exists) (ground (arith, eq_iff path path));
    grows = λ q h. ground (arith, eq_iff path q);
  })

  get_or_create_path-Adds :
      (path : String) (disk : Disk)
      → CanStat path
      → Ensures (λ (r : String × Disk). Adds r.0 disk r.1) (get_or_create_path fs path disk)
  unfolding get_or_create_path create
  get_or_create_path-Adds path disk can = elim (Bool-cases (exists fs path disk)) [
    | inl e ↦ rw e (returns (record { there = e; grows = λ q h. h }))
    | inr e ↦ rw e (
        Ensures-bind _ _ (create_unless-Adds (fs.create_error path) path disk can)
          λ disk' h. returns h)
  ]

  config_error-Ensures {ℓ κ} :
      {A : Type ℓ} (P : A → Type κ) (m : Result String A)
      → Ensures P m
      → Ensures P (config_error fs m)
  config_error-Ensures P (ok a) (returns h) = returns h
  config_error-Ensures P (err e) h = fails

  all_there :
      (c : DirectoryConfig) (disk : Disk)
      → exists fs c.parent disk ≡ true
      → exists fs c.upload disk ≡ true
      → exists fs c.staging disk ≡ true
      → exists fs c.reports disk ≡ true
      → check_config fs c disk ≡ true
  unfolding check_config
  all_there c disk p u s r = rw (p, u, s, r)

  -- If the state of the four directories can be read, then after a successful GetDirectoryConfig
  -- CheckConfig accepts the configuration, and no directory has been removed.
  pub check_config-get_directory_config :
      (disk disk' : Disk) (c : DirectoryConfig)
      → CanStat mount_path
      → CanStat (join_path mount_path query_data_dir)
      → CanStat (join_path mount_path staging_dir)
      → CanStat (join_path mount_path upload_dir)
      → get_directory_config fs disk ≡ ok (c, disk')
      → (check_config fs c disk' ≡ true) × Grows disk disk'
  unfolding get_directory_config check_config
  check_config-get_directory_config disk disk' c s₁ s₂ s₃ s₄ e =
      Ensures-ok
        {P = λ (r : DirectoryConfig × Disk). (check_config fs r.0 r.1 ≡ true) × Grows disk r.1}
        (get_directory_config fs disk) (c, disk')
        (Ensures-bind _ _ (config_error-Ensures _ _ (get_or_create_path-Adds mount_path disk s₁))
          λ r₁ h₁.
            Ensures-bind _ _
              (config_error-Ensures _ _
                (get_or_create_path-Adds (join_path mount_path query_data_dir) r₁.1 s₂))
              λ r₂ h₂.
                Ensures-bind _ _
                  (config_error-Ensures _ _
                    (get_or_create_path-Adds (join_path mount_path staging_dir) r₂.1 s₃))
                  λ r₃ h₃.
                    Ensures-bind _ _
                      (config_error-Ensures _ _
                        (get_or_create_path-Adds (join_path mount_path upload_dir) r₃.1 s₄))
                      λ r₄ h₄. returns (
                        all_there _ _ (h₄.grows _ (h₃.grows _ (h₂.grows _ h₁.there))) h₄.there
                            (h₄.grows _ h₃.there) (h₄.grows _ (h₃.grows _ h₂.there)),
                        λ q h. h₄.grows q (h₃.grows q (h₂.grows q (h₁.grows q h))),
                      ))
        e
