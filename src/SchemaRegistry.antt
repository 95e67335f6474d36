-- ===== src/SchemaRegistry.antt =====
-- The schema registry, projects/10-schema-registry.
pub mod Schema
pub mod Registry
pub mod Compat
pub mod Api
