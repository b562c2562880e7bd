-- ===== src/Tail.antt =====
-- ise_exporter/collectors/dataconnect_tail.py: counting the new rows of a view by their ids.
pub mod Query
pub mod Engine
pub mod Groups
pub mod Window
pub mod Prefix
pub mod Once
pub mod Reset
mod Examples
