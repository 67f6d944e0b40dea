-- ===== src/Ipc.antt =====
-- The channel of internal/host/child_process_ipc.go: messages framed on a byte stream.
pub mod Frames
pub mod KeepAlive
pub mod Channel
pub mod Stream
pub mod Delivery
pub mod Safety
pub mod Sending
pub mod Tests
