-- ===== src/Orchestrator/Config.antt =====
-- src/jetty/orchestrator/config.py: the configuration, its validation and its derived orders.
pub mod Model
pub mod Toml
pub mod Extends
pub mod Table
pub mod Parse
pub mod StartOrder
pub mod PortSpec
pub mod Validate
pub mod Tests
