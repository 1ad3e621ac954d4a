-- ===== src/Source.antt =====
-- internal/source: the fail-closed decision on every read of a source object.
pub mod Types
pub mod Authorizer
