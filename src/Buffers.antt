-- ===== src/Buffers.antt =====
-- Buffers and their texts: internal/host/buffer.go, buffer_methods.go and stringdecoder.go.
pub mod Encoding
pub mod Base64
pub mod Decoder
pub mod Chunks
pub mod Utf8
pub mod LeadBytes
pub mod Characters
pub mod Integers
pub mod Numbers
pub mod InPlace
pub mod Tests
