-- ===== src/Config.antt =====
-- src/config.rs: the settings, the environment in them, and their validation.
pub mod Settings
pub mod Expand
pub mod Validate
pub mod Checked
pub mod Load
