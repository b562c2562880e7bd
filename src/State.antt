-- ===== src/State.antt =====
-- ise_exporter/state.py: the files and the caches of the restart-persistent state.
pub mod Reset
pub mod Whole
pub mod Cache
pub mod Tables
pub mod Keyed
pub mod Selection
pub mod Read
pub mod Total
pub mod Refines
mod Examples
