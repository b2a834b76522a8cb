-- ===== src/Orchestrator/Supervisor.antt =====
-- src/jetty/orchestrator/supervisor.py: the owner of one instance.
pub mod Stop
mod Tests
