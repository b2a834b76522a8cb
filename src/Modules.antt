-- ===== src/Modules.antt =====
-- src/jetty/modules: what the sidecar serves.
pub mod Paging
pub mod Mail
pub mod IssueTracker
pub mod Chat
