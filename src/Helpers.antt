-- ===== src/Helpers.antt =====
-- ise_exporter/util.py: the stateless helpers.
pub mod Text
pub mod Mac
pub mod MacLaws
pub mod Attrs
pub mod Steps
pub mod Label
mod Examples
