-- ===== src/Lib.antt =====
-- Verification library of the metrics operator.
--
-- The metrics operator queries Prometheus of an OpenShift cluster every hour, writes what it finds to
-- CSV reports, packs the reports with a manifest into tar.gz files, and uploads them. This library
-- models the parts of the operator that decide what is collected, written, packed and uploaded.
--
-- The parts and how they interact. A reconciliation (internal/controller) asks for the range of hours
-- to query, loops over its days and hours, and for each hour has the collector make the reports. The
-- collector (internal/collector) makes its queries with retries, gathers the answers in rows, and
-- appends the rows to a report file of the month in the reports directory. From time to time the
-- packager (internal/packaging) moves the reports to the staging directory, splits them if they are
-- large, and writes packages to the upload directory, which it trims. The directories are those of
-- internal/dirconfig, on the volume that internal/storage has the deployment mount. Then the
-- controller finds credentials, validates them, checks the source that the cluster is known by with
-- the Sources API (internal/sources), and uploads the packages by internal/crhchttp.
--
-- Which file models which part:
--   * Base and the modules below it: what the sources use of Go. Base.Text is `strings` and
--     `path/filepath`, Base.Dict is a map with text keys, Base.Int64 is the arithmetic of int64,
--     Base.Order is `sort.Strings`, Base.Csv is `encoding/csv`, Base.Time is `time` in UTC,
--     Base.Outcome is a value with an error, Base.Split is `strings.Split`, and Base.Space is
--     `strings.TrimSpace`.
--   * Strset: internal/strset/strset.go. The set is the list of the keys of its map.
--   * Collector.Rows: internal/collector/types.go, a record for each row type, and CsvStruct for the
--     interface csvStruct.
--   * Collector.Report: internal/collector/report.go. write_report is writeReport, with read_csv for
--     readCSV and write_to_file for writeToFile; the state is the lines of the file.
--   * Collector.Query: getQueryRangeResults and getQueryResults of internal/collector/prometheus.go
--     as get_query_results. The state counts the calls and the seconds of sleep.
--   * Collector.Connection: GetPromConn of that file, with the setters of the connection as arguments.
--   * Collector.Results: iterateVector, iterateMatrix and what they call, in
--     internal/collector/collector.go. The state is the results by row key.
--   * Collector.Queries: internal/collector/queries.go, a list of queries for each list of the source,
--     with the expressions in CostExpressions and RosExpressions. Collector.Queries.Columns has the
--     lists beside the keys of the rows.
--   * Collector.Decode: getStruct for each row type, with the keys of the fields in Collector.Decode.Keys.
--     A row is decoded by the names and tags of its fields, as mapstructure does.
--   * Collector.Shaping: what internal/collector/collector.go does with values before they are decoded:
--     resource ids, the rows of nodes, and the capacity of GPUs.
--   * Collector.Generate: GenerateReports of that file over the stages that a section's parameter
--     gives, with the range that it changes.
--   * Collector.Reports: the reports as stages. The state is the rows of nodes and the report files by
--     name. Collector.Reports.Optimization has generateResourceOptimizationReports,
--     areNamespacesEnabled and getVectorQuerySimple, and Collector.Reports.Whole puts the stages into
--     GenerateReports.
--   * Dirconfig: internal/dirconfig/dirconfig.go. The state is the paths that exist.
--   * Packaging: internal/packaging/packaging.go. Split has needSplit, writePart and splitFiles, Trim
--     has TrimPackages (Trim.Partial also has what an error leaves), Interval has getStartEnd, Names has
--     buildLocalCSVFileList and createCSVUploadName, Package has moveOrCopyFiles, getManifest,
--     writeTarball and PackageReports over the names in the directories, and Archive has GetFileInfo.
--   * Controller: Retention has setRetentionPeriod and getTimeRange of
--     internal/controller/prometheus.go and the loops of Reconcile in
--     internal/controller/costmanagementmetricsconfig_controller.go; Query has isQueryNeeded and
--     collectPromStats; Package has checkCycle, packageFiles, packageFilesWithCycle and filesToUpload;
--     Reflect has ReflectSpec, and Authentication has setAuthentication and validateCredentials.
--     Secrets has GetPullSecretToken, GetAuthSecret and GetServiceAccountSecret, Upload has uploadFiles,
--     SourceCheck has checkSource, and Session has setAuthAndUpload, which composes them with
--     Authentication, Package, Sources and Crhchttp. Its state holds the package variables of the controller. Cluster
--     has setClusterID, with internal/clusterversion/cv.go, and setOperatorCommit.
--   * Controller.Reconcile: Reconcile over the record Steps of its steps, as a part before the upload
--     and a part from the upload on. Controller.Reconcile.World is
--     the state of the operator, with the states of the components as its parts, and
--     Controller.Reconcile.Run fills Steps with the models of the components. A part that two components
--     share, as the names in the upload directory, is given to a component before its step, and taken
--     back after it.
--   * Crhchttp: internal/crhchttp/http_cloud_dot_redhat.go and config.go. Http is the client, whose
--     answers are an argument; Crhchttp.Scrub is scrubAuthorization.
--   * Storage: internal/storage/storage.go, over what the API server holds. Storage.Configure is
--     configurePVC of the controller.
--   * Sources: internal/sources/handler.go. The state is the list of the requests that were sent.
--   * Tests: the theorems at small inputs.
--
-- A call into a library or into the operating system is a parameter that says whether it fails and
-- what it gives. Go's errors are values of Result; what the code can only panic with is an error of
-- its own. The order in which Go goes over a map is the order of a list.
--
-- Bounds and fuel. split_loop runs for 999 rounds, since the source counts parts from 1 to maxSplits,
-- and split_loop-whole gives the size of a file for which these suffice. get_query_results recurs on
-- the retries, of which there are MaxRetries. collect_days has fuel for one day more than lie between
-- the two instants, and collect-covers holds for that fuel. All else recurs on lists. Sizes in
-- needSplit and writePart wrap around as int64 does; instants and durations are numbers of
-- nanoseconds, and a difference below 0 is written out where the source can have one.
--
-- Two errors that the source ignores are parameters as well: that of the Flush of a part, and that of
-- the Close of a package; the text that is lost by one is counted in whole rows or entries. A write to
-- a report that fails leaves whole lines in the model, and may leave a part of a line in fact. A
-- query that panics in Collector.Results is an error of its report in Collector.Reports. A time has its
-- Location where the source compares it, which is in the map of retries (Base.Time.Stamp). Names of
-- keys in secrets are ASCII, and the order of the keys is that of a list.
--
-- What is not modelled: the time-out of queries, the pause before the first upload, multipart bodies,
-- certificates and transports, the setters of the connection to Prometheus, the types of the resource
-- beyond the fields that are used, and cmd. In Sources the time of the check is left out, since
-- Controller.SourceCheck sets it. The texts of errors are shortened where nothing depends on them.
-- Directories that GetDirectoryConfig made before it failed are forgotten.
pub mod Base
pub mod Strset
pub mod Dirconfig
pub mod Collector
pub mod Packaging
pub mod Controller
pub mod Sources
pub mod Crhchttp
pub mod Storage
mod Tests
