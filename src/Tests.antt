-- ===== src/Tests.antt =====
-- Runs of the definitions at concrete inputs, and the theorems applied to them.
pub mod Formats
pub mod Store
pub mod Purging
pub mod Handling
pub mod Database
pub mod Draining
pub mod Storage
pub mod Checking
pub mod Scanning
pub mod Running
pub mod Commanding
pub mod Configuring
