-- ===== src/Requests.antt =====
-- The requests' worker: apps/worker/src/request_processor.
pub mod Content
pub mod Urls
pub mod Attachments
pub mod Announcing
pub mod Dependencies
pub mod Instances
mod Tests
