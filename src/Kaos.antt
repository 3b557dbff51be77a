-- ===== src/Kaos.antt =====
-- server/kaos/src/cached.rs and snapshot.rs: the cached view of a working directory.
pub mod History
pub mod Undo
pub mod Index
