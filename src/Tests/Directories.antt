-- ===== src/Tests/Directories.antt =====
-- The theorem on the directories, applied to a disk without directories.
use koku_metrics_operator.Base.{◌≡◌, refl, true, none, [], ◌∷◌, ok}
use koku_metrics_operator.Dirconfig.{
  FileSystem, Disk, DirectoryConfig, get_directory_config, check_config,
}
use koku_metrics_operator.Dirconfig.Laws.{Grows, check_config-get_directory_config}

abbrev working : FileSystem
working = record {
  stat_error = λ path. none;
  create_error = λ path. none;
  remove_error = λ path. none;
  list_error = λ path. none;
}

abbrev pub some_config : DirectoryConfig
some_config = record {
  parent = "tmp/koku-metrics-operator-reports";
  upload = "tmp/koku-metrics-operator-reports/upload";
  staging = "tmp/koku-metrics-operator-reports/staging";
  reports = "tmp/koku-metrics-operator-reports/data";
}

abbrev pub all_directories : Disk
all_directories =
    some_config.upload ∷ some_config.staging ∷ some_config.reports ∷ some_config.parent ∷ []

configured : get_directory_config working [] ≡ ok (some_config, all_directories)
unfolding get_directory_config
configured = refl

check_config-get_directory_config_example :
    (check_config working some_config all_directories ≡ true) × Grows working [] all_directories
check_config-get_directory_config_example =
    check_config-get_directory_config working [] all_directories some_config refl refl refl refl
      configured
