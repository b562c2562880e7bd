-- ===== src/Posture.antt =====
-- ise_exporter/collectors/mnt_active_posture.py: the snapshot of the current endpoint details.
pub mod Session
pub mod Detail
pub mod Sort
pub mod Plan
pub mod Collect
pub mod Invariant
pub mod Current
pub mod Puts
pub mod Bounds
pub mod Usable
pub mod Fresh
pub mod Answered
pub mod Rows
pub mod Whole
pub mod Oversized
pub mod Groups
pub mod Provenance
mod Examples
