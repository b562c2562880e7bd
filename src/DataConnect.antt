-- ===== src/DataConnect.antt =====
-- ise_exporter/clients/dataconnect.py: the paced client of the reporting database.
pub mod Pacing
pub mod Gate
pub mod Connect
pub mod Rows
pub mod Query
pub mod Batch
pub mod Duty
pub mod Lease
pub mod Sessions
pub mod Ceilings
pub mod Results
pub mod Dials
mod Examples
