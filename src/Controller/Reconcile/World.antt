-- ===== src/Controller/Reconcile/World.antt =====
-- The world of Reconcile of internal/controller/costmanagementmetricsconfig_controller.go.
use koku_metrics_operator.Base.{
  ℕ, String, str_eq, Bool, false, Option, none, some, List, [], ◌∷◌, map, elem, Result,
  if◌then◌else◌,
}
use koku_metrics_operator.Base.Time.{Time, Location}
use koku_metrics_operator.Dirconfig.{FileSystem, DirectoryConfig}
use koku_metrics_operator.Storage.{StorageEnv, StorageStatus, Cluster, EmbeddedClaim}
use koku_metrics_operator.Collector.Connection.{Connection, Setters}
use koku_metrics_operator.Collector.Report.{Disk}
use koku_metrics_operator.Collector.Reports.{ReportsEnv, Gathered}
use koku_metrics_operator.Packaging.Package.{Dirs, PackEnv, Tarball}
use koku_metrics_operator.Controller.Reflect.{Spec, Status}
use koku_metrics_operator.Controller.Cluster.{ClusterVersion, ClusterStatus}
use koku_metrics_operator.Controller.Retention.{Monitoring, RangeState}
use koku_metrics_operator.Controller.Query.{PromStatus}
use koku_metrics_operator.Controller.Package.{PackStatus}
use koku_metrics_operator.Controller.Authentication.{AuthType, token, basic, service_account}
use koku_metrics_operator.Controller.Session.{Session}
use koku_metrics_operator.Controller.SourceCheck.{SessionEnv}
use koku_metrics_operator.Controller.Reconcile.{Fetched}

-- What answers the calls of a reconciliation: the objects that it reads, the variable GIT_COMMIT, the
-- present time, and the calls that fail.
pub record OperatorEnv (F : Type 0) : Type 0 where
  pub in_cluster : Bool
  pub fetched : Fetched
  pub random : ℕ
  pub storage : StorageEnv
  pub claim_spec : String
  pub claim : Option EmbeddedClaim
  pub namespace : String
  pub cluster_versions : Result String (List ClusterVersion)
  pub git_commit : Option String
  pub fs : FileSystem
  pub monitoring : Monitoring
  pub now : Time
  pub packaging : PackEnv
  pub setters : Setters
  pub reports : ReportsEnv F
  pub session : SessionEnv
  pub remove_error : String → Option String
  pub update_error : Option String

-- The resource, the objects of the API server, the directories, and the variables of the controller.
-- `start_location` is the Location of `startTime`, which sums with durations keep. The reports are the
-- files of `gathered`, and the packages are those of `dirs`; `gathered`, `prom` and
-- `session` hold the rest of the state of their components.
pub record World : Type 0 where
  pub spec : Spec
  pub status : Status
  pub volume : StorageStatus
  pub cluster : Cluster
  pub identity : ClusterStatus
  pub git_commit : String
  pub dir_cfg : DirectoryConfig
  pub range : RangeState
  pub start_location : Location
  pub connection : Connection
  pub prom : PromStatus
  pub gathered : Gathered
  pub packing : PackStatus
  pub dirs : Dirs
  pub report_count : Option ℕ
  pub packaged_files : List String
  pub session : Session

-- The value that a pointer refers to. ReflectSpec and the defaults of the schema have set them.
abbrev pub is_true : Option Bool → Bool
is_true none = false
is_true (some b) = b

abbrev pub or_zero : Option ℕ → ℕ
or_zero none = 0
or_zero (some n) = n

-- The types that the schema admits.
unfoldable pub auth_type_of : String → AuthType
auth_type_of s =
    if str_eq s "basic"
    then basic
    else if str_eq s "service-account"
    then service_account
    else token

-- The names of the reports that are there.
unfoldable pub report_names : List (String × Disk) → List String
report_names [] = []
report_names ((name, d) ∷ files) = elim d.file [
  | none ↦ report_names files
  | some lines ↦ name ∷ report_names files
]

-- The reports that stand in a listing of the directory.
unfoldable pub reports_in : List String → List (String × Disk) → List (String × Disk)
reports_in names [] = []
reports_in names ((name, d) ∷ files) =
    if elem name names then (name, d) ∷ reports_in names files else reports_in names files

tarball_name : Tarball → String
tarball_name t = t.name

-- The packages whose names stand in a listing of the directory.
unfoldable pub tarballs_in : List String → List Tarball → List Tarball
tarballs_in names [] = []
tarballs_in names (t ∷ tars) =
    if elem t.name names then t ∷ tarballs_in names tars else tarballs_in names tars

unfoldable pub package_names : World → List String
unfolding tarball_name
package_names w = map tarball_name w.dirs.upload
