-- ===== src/Controller/Cluster.antt =====
-- What identifies the cluster and the operator: GetClusterVersion of
-- internal/clusterversion/cv.go, and GetClusterID, setClusterID and setOperatorCommit of
-- internal/controller/costmanagementmetricsconfig_controller.go.
use koku_metrics_operator.Base.{
  String, str_eq, Bool, true, false, ◌||◌, not, Option, none, some, List, [], ◌∷◌, Result, ok, err,
  if◌then◌else◌,
}

-- The specification of the ClusterVersion object.
pub record ClusterVersion : Type 0 where
  pub cluster_id : String
  pub channel : String

-- The cluster's part of the status, and the commit of the operator in the status.
pub record ClusterStatus : Type 0 where
  pub cluster_id : String
  pub cluster_version : String
  pub operator_commit : String

-- GetClusterVersion, by the answer to the request of the list: the object is a singleton.
unfoldable pub get_cluster_version :
    Result String (List ClusterVersion) → Result String ClusterVersion
get_cluster_version (err e) = err e
get_cluster_version (ok []) = err "ClusterVersion not found"
get_cluster_version (ok (cv ∷ cvs)) = ok cv

-- A text that is not empty is put in the place of another.
abbrev unless_empty : String → String → String
unless_empty new old = if not (str_eq new "") then new else old

with_version : Result String ClusterVersion → ClusterStatus → Option String × ClusterStatus
with_version (err e) st = (some e, st)
with_version (ok cv) st = (
  none,
  record st {
    cluster_id = unless_empty cv.cluster_id st.cluster_id;
    cluster_version = unless_empty cv.channel st.cluster_version;
  },
)

-- GetClusterID
unfoldable pub get_cluster_id :
    Result String (List ClusterVersion) → ClusterStatus → Option String × ClusterStatus
unfolding with_version get_cluster_version
get_cluster_id listed st = with_version (get_cluster_version listed) st

-- setClusterID
unfoldable pub set_cluster_id :
    Result String (List ClusterVersion) → ClusterStatus → Option String × ClusterStatus
unfolding get_cluster_id
set_cluster_id listed st =
    if str_eq st.cluster_id "" || str_eq st.cluster_version ""
    then get_cluster_id listed st
    else (none, st)

or_empty : Option String → String
or_empty none = ""
or_empty (some commit) = commit

-- setOperatorCommit: `GitCommit` afterwards, by the variable of the environment.
unfoldable pub set_operator_commit : Option String → String → String
unfolding or_empty
set_operator_commit environment git_commit =
    if str_eq git_commit "" then or_empty environment else git_commit

-- Reconcile's use of it: is the operator new here?, `GitCommit`, and the status.
unfoldable pub reflect_commit :
    Option String → String → ClusterStatus → Bool × (String × ClusterStatus)
unfolding set_operator_commit
reflect_commit environment git_commit st =
    let commit = set_operator_commit environment git_commit in
    if not (str_eq st.operator_commit commit)
    then (true, (commit, record st { operator_commit = commit }))
    else (false, (commit, st))
