-- ===== src/Importer.antt =====
-- The import from Microsoft Edge (roamux/browser/importer).
pub mod Report
pub mod Bookmarks
pub mod Profile
pub mod Preflight
pub mod Coordinator
