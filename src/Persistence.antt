-- ===== src/Persistence.antt =====
-- The package internal/persistence: the append log of write commands and its replay.
pub mod Stream
pub mod Extends
pub mod Log
pub mod Values
pub mod Snapshot
pub mod Store
pub mod Torn
pub mod Segments
mod Tests
