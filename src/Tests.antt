-- ===== src/Tests.antt =====
-- The theorems applied at small inputs.
mod Reports
mod Packages
mod Directories
mod Queries
mod Schedule
mod Services
mod Settings
mod Uploads
mod Volumes
mod Reconciling
mod Gathering
