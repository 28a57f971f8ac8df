-- ===== src/Updates.antt =====
-- The update row of the About page (roamux/browser/updates).
pub mod Machine
