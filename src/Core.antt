-- ===== src/Core.antt =====
-- The core server, src/jetty: what a module gets of a request.
pub mod Headers
