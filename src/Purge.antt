-- ===== src/Purge.antt =====
-- internal/purge
pub mod SizeCheck
pub mod Env
pub mod Clear
pub mod Process
pub mod Handle
pub mod Pool
