-- ===== src/Collector/Queries.antt =====
-- internal/collector/queries.go: the queries of each report as data.
pub mod CostExpressions
pub mod RosExpressions
pub mod Expressions
pub mod Node
pub mod Storage
pub mod Pod
pub mod Vm
pub mod NvidiaGpu
pub mod RosImage
pub mod RosCpu
pub mod RosMemory
pub mod RosRss
pub mod RosAccelerator
pub mod RosNamespace
pub mod RosNamespaceMemory
pub mod Columns
use koku_metrics_operator.Base.{List, ◌++◌}
use koku_metrics_operator.Collector.Query.{Query}
use RosImage.{ros_image_queries, ros_cpu_request_queries}
use RosCpu.{ros_cpu_usage_queries}
use RosMemory.{ros_memory_queries}
use RosRss.{ros_rss_queries}
use RosAccelerator.{ros_accelerator_queries}
use RosNamespace.{ros_namespace_cpu_queries}
use RosNamespaceMemory.{ros_namespace_memory_queries}

-- rosContainerQueries
unfoldable pub ros_container_queries : List Query
unfolding ros_image_queries ros_cpu_request_queries ros_cpu_usage_queries ros_memory_queries
    ros_rss_queries ros_accelerator_queries
ros_container_queries =
    ros_image_queries
    ++ (ros_cpu_request_queries
        ++ (ros_cpu_usage_queries
            ++ (ros_memory_queries ++ (ros_rss_queries ++ ros_accelerator_queries))))

-- rosNamespaceQueries
unfoldable pub ros_namespace_queries : List Query
unfolding ros_namespace_cpu_queries ros_namespace_memory_queries
ros_namespace_queries = ros_namespace_cpu_queries ++ ros_namespace_memory_queries
