-- ===== src/Persist.antt =====
-- agent/internal/queue/persist/store.go: the spill store, a queue of probe results in segment files.
pub mod Frame
pub mod State
pub mod Segments
pub mod Writer
pub mod Reader
pub mod Acker
pub mod Names
pub mod Opening
pub mod View
pub mod Tests
