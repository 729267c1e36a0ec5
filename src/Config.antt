-- ===== src/Config.antt =====
-- core/config: the configuration that a worker reads, and the rows of the database that it is read from.
pub mod Snapshot
pub mod Rows
pub mod Load
