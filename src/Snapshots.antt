-- ===== src/Snapshots.antt =====
-- ise_exporter/snapshots.py: the replacement of metric families under one lock, with rollback, and
-- the persisted snapshot.
pub mod Store
pub mod Replace
pub mod Checked
pub mod Rollback
pub mod Persist
pub mod Items
pub mod RoundTrip
mod Examples
