-- ===== src/Controller/Reconcile/Run.antt =====
-- The steps of Reconcile of internal/controller/costmanagementmetricsconfig_controller.go on its world,
-- by the models of the components. The settings that are read from the resource are those of the
-- status, as in the code. What GetDirectoryConfig made before an error is forgotten, since the next
-- one makes or finds it.
pub mod Sends
use koku_metrics_operator.Base.{
  ℕ, ◌+◌, ◌*◌, String, ◌<>◌, str_eq, Bool, true, false, Option, none, some, List, Result, ok, err,
  if◌then◌else◌,
}
use koku_metrics_operator.Base.Time.{Time, minute, second}
use koku_metrics_operator.Dirconfig
use koku_metrics_operator.Dirconfig.{
  FileSystem, DirectoryConfig, check_config, get_directory_config, get_files, get_files_full_path,
}
use koku_metrics_operator.Storage.Configure.{Configured, configure_pvc}
use koku_metrics_operator.Collector.Connection.{get_prom_conn}
use koku_metrics_operator.Collector.Generate
use koku_metrics_operator.Collector.Generate.{Generated, no_data}
use koku_metrics_operator.Collector.Reports.{Gathered}
use koku_metrics_operator.Collector.Reports.Whole.{generate_all}
use koku_metrics_operator.Packaging.Package.{FilesAction, Dirs, PackEnv}
use koku_metrics_operator.Packaging.Trim.{Trimmed, trim_packages}
use koku_metrics_operator.Packaging.Trim.Partial.{trim_left}
use koku_metrics_operator.Controller.Reflect.{reflect_spec}
use koku_metrics_operator.Controller.Cluster.{set_cluster_id, reflect_commit}
use koku_metrics_operator.Controller.Retention.{RangeState, get_time_range, range_location}
use koku_metrics_operator.Controller.Query.{PromStatus, collect_prom_stats}
use koku_metrics_operator.Controller.Package.{PackStatus, package_files, package_files_with_cycle}
use koku_metrics_operator.Controller.Session.{Ending, Session, set_auth_and_upload}
use koku_metrics_operator.Controller.SourceCheck.{SessionEnv}
use koku_metrics_operator.Controller.Reconcile.{Steps}
use koku_metrics_operator.Controller.Reconcile.World.{
  OperatorEnv, World, is_true, or_zero, auth_type_of, report_names, reports_in, tarballs_in,
  package_names,
}

module _ {F : Type 0} (env : OperatorEnv F) where
  reflect : World → World
  unfolding reflect_spec
  reflect w =
      let (spec, status) = reflect_spec env.random w.spec w.status in
      record w { spec = spec; status = status }

  configure : World → Configured × World
  configure w =
      let (r, (volume, cluster)) =
        configure_pvc env.storage env.claim_spec env.claim env.namespace w.volume w.cluster in
      (r, record w { volume = volume; cluster = cluster })

  identify : World → Option String × World
  identify w =
      let (e, identity) = set_cluster_id env.cluster_versions w.identity in
      (e, record w { identity = identity })

  name_source : World → World
  name_source w =
      if str_eq w.status.source_name ""
      then record w { status = record (w.status) { source_name = w.identity.cluster_id } }
      else w

  commit : World → Bool × World
  commit w =
      let (new_install, (git_commit, identity)) =
        reflect_commit env.git_commit w.git_commit w.identity in
      (new_install, record w { git_commit = git_commit; identity = identity })

  configured : Result String (DirectoryConfig × Dirconfig.Disk) → World → Option String × World
  configured (err e) w = (some e, w)
  configured (ok (dir_cfg, existing)) w =
      (none, record w { dir_cfg = dir_cfg; dirs = record (w.dirs) { existing = existing } })

  range_of : World → RangeState
  range_of w = record (w.range) { last_query_success_time = w.prom.last_query_success_time }

  ranged : World → (Time × Time) × World
  unfolding range_of
  ranged w =
      let (times, range) = get_time_range env.monitoring env.now (range_of w) in
      let location = range_location env.monitoring env.now (range_of w) in
      (times, record w { range = range; start_location = location })

  abbrev new_packager : World → World
  new_packager w = record w {
    packing = record (w.packing) { packager = record { start = 0; end = 0 } };
  }

  -- The packaging of a run, with what it reads of the status.
  packaging_of : World → PackEnv
  packaging_of w = record (env.packaging) {
    fs = env.fs;
    dir_cfg = w.dir_cfg;
    max_bytes = or_zero w.status.max_size * (1024 * 1024);
    cluster_id = w.identity.cluster_id;
    operator_commit = w.identity.operator_commit;
  }

  dirs_of : World → Dirs
  unfolding report_names
  dirs_of w = record (w.dirs) { reports = report_names w.gathered.files }

  packaged : PackStatus × Dirs → World → World
  unfolding reports_in
  packaged (packing, dirs) w = record w {
    packing = packing;
    dirs = dirs;
    gathered = record (w.gathered) { files = reports_in dirs.reports w.gathered.files };
  }

  package_now : FilesAction → World → World
  unfolding packaged packaging_of dirs_of
  package_now action w =
      packaged (package_files (packaging_of w) action env.now w.packing (dirs_of w)) w

  package_in_cycle : FilesAction → World → World
  unfolding packaged packaging_of dirs_of
  package_in_cycle action w =
      packaged
        (package_files_with_cycle (packaging_of w) action (or_zero w.status.upload_cycle) env.now
          w.packing (dirs_of w))
        w

  connect : World → Option String × World
  connect w =
      let (e, connection) =
        get_prom_conn env.setters
          (record {
            svc_address = w.spec.svc_address;
            skip_tls_verification = is_true w.spec.skip_tls_verification;
          })
          w.connection in
      (e, record w { connection = connection })

  -- GenerateReports is called for an hour unless collectPromStats returns before.
  queried : Option Generated → PromStatus → Gathered → World → World × Bool
  queried none prom gathered w = (record w { prom = prom }, false)
  queried (some no_data) prom gathered w = (record w { prom = prom; gathered = gathered }, true)
  queried (some Generate.reports_written) prom gathered w =
      (record w { prom = prom; gathered = gathered }, false)
  queried (some Generate.ros_no_enabled_namespaces) prom gathered w =
      (record w { prom = prom; gathered = gathered }, false)
  queried (some (Generate.failure e)) prom gathered w =
      (record w { prom = prom; gathered = gathered }, false)

  query : Time → World → World × Bool
  unfolding queried
  query t w =
      let ran =
        generate_all env.reports w.spec.disable_cost_management w.spec.disable_resource_optimization
          (record { start = t; end = t + (59 * minute + 59 * second) }) w.gathered in
      let (result, prom) =
        collect_prom_stats (λ start. (ran.result, ran.range.start))
          (record { instant = t; location = w.start_location }) w.prom in
      queried result prom ran.world w

  -- The settings of setAuthAndUpload.
  unfoldable pub session_of : World → SessionEnv
  unfolding auth_type_of
  session_of w = record (env.session) {
    auth_type = auth_type_of w.status.auth_type;
    secret_name = w.status.authentication_secret_name;
    token_url = w.status.token_url;
    validate_cert = is_true w.status.validate_cert;
    operator_commit = w.identity.operator_commit;
    cluster_id = w.identity.cluster_id;
    source_spec = record {
      sources_api_path = w.spec.sources_api_path;
      source_name = w.spec.source_name;
      create_source = w.spec.create_source;
      check_cycle = w.spec.check_cycle;
    };
    source_name = w.status.source_name;
    create_source = is_true w.status.create_source;
    source_check_cycle = or_zero w.status.check_cycle;
    upload_cycle = or_zero w.status.upload_cycle;
    now = env.now;
    fs = env.fs;
    uploads = record (env.session.uploads) {
      upload_path = w.dir_cfg.upload;
      ingress_url = w.status.api_url <> w.status.ingress_api_path;
    };
  }

  -- The state of setAuthAndUpload, which sees the packages that are there.
  unfoldable pub before_session : World → Session
  unfolding package_names
  before_session w = record (w.session) {
    uploads = record (w.session.uploads) { stored = package_names w };
  }

  upload : World → Ending × World
  unfolding session_of before_session tarballs_in
  upload w =
      let (ending, session) = set_auth_and_upload (session_of w) (before_session w) in
      (
        ending,
        record w {
          session = session;
          dirs = record (w.dirs) { upload = tarballs_in session.uploads.stored w.dirs.upload };
        },
      )

  count_of : Result String Trimmed → Option ℕ → Option ℕ
  count_of (err e) count = count
  count_of (ok t) count = some t.report_count

  trimmed : Result String (List String) → World → Option String × World
  unfolding count_of tarballs_in trim_left trim_packages
  trimmed (err e) w = (some ("failed to read upload dir: " <> e), w)
  trimmed (ok names) w =
      let (e, left) = trim_left env.remove_error w.spec.max_reports names in
      (
        e,
        record w {
          dirs = record (w.dirs) { upload = tarballs_in left w.dirs.upload };
          report_count =
              count_of (trim_packages env.remove_error w.spec.max_reports names) w.report_count;
        },
      )

  -- The steps of Reconcile.
  unfoldable pub steps_of : Steps World
  unfolding reflect configure identify name_source commit configured ranged package_now
      package_in_cycle connect query upload trimmed package_names report_names
  steps_of = record {
    in_cluster = env.in_cluster;
    fetch = λ w. env.fetched;
    reflect_spec = reflect;
    configure_pvc = configure;
    set_cluster_id = identify;
    default_source_name = name_source;
    reflect_commit = commit;
    check_config = λ w. check_config env.fs w.dir_cfg w.dirs.existing;
    get_directory_config = λ w. configured (get_directory_config env.fs w.dirs.existing) w;
    get_time_range = ranged;
    new_packager = new_packager;
    report_files = λ w. get_files env.fs w.dir_cfg.reports (report_names w.gathered.files);
    package_files = package_now;
    get_prom_collector = connect;
    collect_prom_stats = query;
    initial_data_collection = λ w. w.range.initial_data_collection;
    end_initial_collection =
        λ w. record w { range = record (w.range) { initial_data_collection = false } };
    package_files_with_cycle = package_in_cycle;
    upload_toggle = λ w. is_true w.spec.upload_toggle;
    set_auth_and_upload = upload;
    trim_packages = λ w. trimmed (get_files env.fs w.dir_cfg.upload (package_names w)) w;
    upload_files = λ w. get_files_full_path env.fs w.dir_cfg.upload (package_names w);
    set_packaged_files = λ files w. record w { packaged_files = files };
    update_status = λ w. (env.update_error, w);
  }
