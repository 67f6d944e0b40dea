-- ===== src/Glob.antt =====
-- The matcher of internal/host/fs_glob.go: patterns, their segments, and the paths that they match.
pub mod Segment
pub mod Braces
pub mod Expansion
pub mod NonAscii
pub mod Compile
pub mod Match
pub mod Exclude
pub mod Emit
pub mod Tests
