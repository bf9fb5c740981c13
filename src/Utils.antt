-- ===== src/Utils.antt =====
-- qtoggleserver/frontend/js/utils.js
pub mod Netmask
pub mod Names
pub mod Samples
mod Tests
