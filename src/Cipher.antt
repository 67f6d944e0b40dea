-- ===== src/Cipher.antt =====
-- The ciphers of internal/host/crypto_cipher.go, over a block cipher from Go's library.
pub mod Blocks
pub mod Wrap
pub mod Unwrap
pub mod Rounds
pub mod KeyWrap
pub mod WrapPad
pub mod Padding
pub mod PadWrap
pub mod Modes
pub mod Runs
pub mod Fed
pub mod Filling
pub mod Crypt
pub mod Tests
