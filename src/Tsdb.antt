-- ===== src/Tsdb.antt =====
-- The time-series database, projects/06-timeseries-db/tsdb.
pub mod Chunk
pub mod Db
