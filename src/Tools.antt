-- ===== src/Tools.antt =====
-- The programs of tools/, which use the library through its interface.
pub mod Polling
pub mod EdgeDetector
pub mod MouseDpi
pub mod TweakDevice
pub mod Listing
pub mod ListCodes
pub mod Events
