-- ===== src/Modules/Mail.antt =====
-- src/jetty/modules/mail: the outbound mail relay.
pub mod Spool
mod Tests
