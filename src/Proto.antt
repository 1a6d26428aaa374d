-- ===== src/Proto.antt =====
-- proto.c: the client's side of the protocol. `Filters` builds a collection's file name filters.
pub mod Escape
pub mod Tokens
pub mod Lines
pub mod Filters
pub mod Filtered
