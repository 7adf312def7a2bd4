-- ===== src/Collector.antt =====
-- internal/collector: the rows of the reports, the report files, the queries and their results.
pub mod Rows
pub mod Report
pub mod Connection
pub mod Query
pub mod Queries
pub mod Results
pub mod Decode
pub mod Generate
pub mod Shaping
pub mod Reports
