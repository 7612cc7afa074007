-- ===== src/Util.antt =====
-- The package util: what the generators of metrics and of host specs share.
pub mod Filesystem
