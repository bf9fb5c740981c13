-- ===== src/Notifications.antt =====
-- qtoggleserver/frontend/js/api/notifications.js
pub mod Listen
pub mod Expected
mod Tests
