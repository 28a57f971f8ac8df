-- ===== src/Proxy.antt =====
-- The proxy section of the settings (roamux/browser/proxy).
pub mod Builder
