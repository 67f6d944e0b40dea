-- ===== src/Packages.antt =====
-- internal/host/nodemodules.go and packageimports.go: how a package specifier becomes a file.
pub mod Json
pub mod Exports
pub mod Imports
pub mod Conditions
pub mod Entry
pub mod Specifier
pub mod Names
pub mod Sound
pub mod Order
pub mod Stripping
pub mod Tests
