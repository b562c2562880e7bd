-- ===== src/Rest.antt =====
-- ise_exporter/clients/rest.py: requests, and the enumeration of a paginated list.
pub mod MntXml
pub mod MntBounds
pub mod Transport
pub mod Backoff
pub mod Body
pub mod Page
pub mod Ers
pub mod Walk
pub mod Complete
pub mod Requests
pub mod Pan
pub mod PanWalk
pub mod PanComplete
mod MntExamples
mod PanExamples
mod Examples
