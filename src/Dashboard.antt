-- ===== src/Dashboard.antt =====
-- qtoggleserver/frontend/js/dashboard
pub mod Panel
pub mod Stored
pub mod Registry
