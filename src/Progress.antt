-- ===== src/Progress.antt =====
-- internal/progress: the tool's own database, and the operations of every command on it.
pub mod Tables
pub mod Session
pub mod Capacity
pub mod Rows
pub mod Scan
pub mod Resolve
pub mod Create
pub mod Purging
pub mod Verifying
pub mod Admin
pub mod Counts
pub mod Reports
pub mod Reads
pub mod Current
pub mod Held
