-- ===== src/Path.antt =====
-- internal/host/path.go: the `path.posix` and `path.win32` namespaces.
pub mod Segments
pub mod GoPath
pub mod Posix
pub mod Resolve
pub mod Relative
pub mod Win32
pub mod Parse
pub mod Tests
