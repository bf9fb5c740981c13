-- ===== src/Events.antt =====
-- qtoggleserver/frontend/js/events.js
pub mod Bulk
pub mod Status
pub mod Attributes
pub mod Messages
