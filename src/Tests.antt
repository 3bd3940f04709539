-- ===== src/Tests.antt =====
-- The theorems at concrete devices, queues and kernels.
pub mod Data
mod Events
mod Parts
mod Virtual
mod Lookups
mod Syncs
mod Programs
mod Tweaks
mod Opened
