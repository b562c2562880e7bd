-- ===== src/DataConnect/Sessions.antt =====
-- ise_exporter/clients/dataconnect.py: queries and batches of several clients that take turns at one
-- pacing file.
pub mod Account
pub mod Single
pub mod Monotone
mod Loop
pub mod Many
pub mod Total
