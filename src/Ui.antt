-- ===== src/Ui.antt =====
-- The tab strip's user interface (roamux/browser/ui).
pub mod PinController
