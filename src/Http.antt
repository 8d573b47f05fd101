-- ===== src/Http.antt =====
-- The HTTP side of the proxy (src/http).
pub mod Cors
pub mod Routes
