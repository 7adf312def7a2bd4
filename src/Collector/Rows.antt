-- ===== src/Collector/Rows.antt =====
-- internal/collector/types.go: the row types behind the interface `csvStruct`.
pub mod Dates
pub mod Namespace
pub mod Node
pub mod Pod
pub mod Storage
pub mod Vm
pub mod NvidiaGpu
pub mod RosContainer
pub mod RosNamespace
pub mod Columns
use koku_metrics_operator.Base.{String, List, [], ◌∷◌}
use koku_metrics_operator.Base.Text.{join}
use Dates.{DateTimes}
use Namespace.{NamespaceRow}
use Node.{NodeRow}
use Pod.{PodRow}
use Storage.{StorageRow}
use Vm.{VmRow}
use NvidiaGpu.{NvidiaGpuRow}
use RosContainer.{RosContainerRow}
use RosNamespace.{RosNamespaceRow}

-- A value of the interface `csvStruct`: one constructor for each type that implements it.
pub data CsvStruct : Type 0 where
  namespace : NamespaceRow → CsvStruct
  node : NodeRow → CsvStruct
  pod : PodRow → CsvStruct
  storage : StorageRow → CsvStruct
  vm : VmRow → CsvStruct
  nvidia_gpu : NvidiaGpuRow → CsvStruct
  ros_container : RosContainerRow → CsvStruct
  ros_namespace : RosNamespaceRow → CsvStruct

unfoldable pub dates : CsvStruct → DateTimes
dates (namespace r) = r.dates
dates (node r) = r.dates
dates (pod r) = r.dates
dates (storage r) = r.dates
dates (vm r) = r.dates
dates (nvidia_gpu r) = r.dates
dates (ros_container r) = r.dates
dates (ros_namespace r) = r.dates

unfoldable pub csv_header : CsvStruct → List String
unfolding Namespace.csv_header Node.csv_header Pod.csv_header Storage.csv_header Vm.csv_header
    NvidiaGpu.csv_header RosContainer.csv_header RosNamespace.csv_header
csv_header (namespace r) = Namespace.csv_header
csv_header (node r) = Node.csv_header
csv_header (pod r) = Pod.csv_header
csv_header (storage r) = Storage.csv_header
csv_header (vm r) = Vm.csv_header
csv_header (nvidia_gpu r) = NvidiaGpu.csv_header
csv_header (ros_container r) = RosContainer.csv_header
csv_header (ros_namespace r) = RosNamespace.csv_header

unfoldable pub csv_row : CsvStruct → List String
unfolding Namespace.csv_row Node.csv_row Pod.csv_row Storage.csv_row Vm.csv_row NvidiaGpu.csv_row
    RosContainer.csv_row RosNamespace.csv_row
csv_row (namespace r) = Namespace.csv_row r
csv_row (node r) = Node.csv_row r
csv_row (pod r) = Pod.csv_row r
csv_row (storage r) = Storage.csv_row r
csv_row (vm r) = Vm.csv_row r
csv_row (nvidia_gpu r) = NvidiaGpu.csv_row r
csv_row (ros_container r) = RosContainer.csv_row r
csv_row (ros_namespace r) = RosNamespace.csv_row r

-- The method `string` of every row type.
unfoldable pub row_string : CsvStruct → String
unfolding join
row_string r = join (csv_row r) ","
