-- ===== src/Collab.antt =====
-- projects/03-crdt-collab-backend: the replicated data types and the hub of the sessions.
pub mod Crdt
pub mod Session
