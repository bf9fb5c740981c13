-- ===== src/History.antt =====
-- qtoggleserver/frontend/js/common/history-download-manager.js: the cache of downloaded samples.
pub mod Interval
pub mod Manager
mod Tests
