-- ===== src/Packaging.antt =====
-- internal/packaging/packaging.go: reports are moved to the staging directory, split, described by a
-- manifest and packed for upload; old packages are trimmed.
pub mod Split
pub mod Trim
pub mod Interval
pub mod Names
pub mod Archive
pub mod Package
