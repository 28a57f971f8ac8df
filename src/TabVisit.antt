-- ===== src/TabVisit.antt =====
-- Tab visit-order navigation (roamux/browser/tab_visit).
pub mod Traversal
pub mod Store
pub mod Coordinator
pub mod Bridge
