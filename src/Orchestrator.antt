-- ===== src/Orchestrator.antt =====
-- The package src/jetty/orchestrator: `jetty-orc`, the process orchestrator.
pub mod Config
pub mod Console
pub mod Gates
pub mod Ports
pub mod Resolvers
pub mod Service
pub mod Supervisor
