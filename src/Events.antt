-- ===== src/Events.antt =====
-- Event emitters and what stands on them: internal/host/emitter.go and signals.go.
pub mod Emitter
pub mod Signals
pub mod Counts
pub mod Bridged
pub mod Delivered
pub mod Stream
pub mod Heard
pub mod Texts
pub mod Tests
