-- ===== src/Controller.antt =====
-- The reconciler's decisions: internal/controller.
pub mod Retention
pub mod Query
pub mod Package
pub mod Reflect
pub mod Authentication
pub mod Secrets
pub mod Upload
pub mod SourceCheck
pub mod Session
pub mod Cluster
pub mod Reconcile
