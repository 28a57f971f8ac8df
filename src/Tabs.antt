-- ===== src/Tabs.antt =====
-- Tabs and their initial URLs (roamux/browser/tabs).
pub mod SettleGate
pub mod RefreshRun
pub mod GroupHeader
pub mod Scheduler
pub mod UidService
pub mod InitialUrl
