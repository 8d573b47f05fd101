-- ===== src/App.antt =====
-- The wiring of the application (src/app.rs).
pub mod Wiring
pub mod Deciders
pub mod Started
