-- ===== src/Api.antt =====
-- qtoggleserver/frontend/js/api/base.js and api/constants.js
pub mod Constants
pub mod Errors
pub mod Calls
pub mod Ports
mod Tests
