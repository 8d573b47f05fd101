-- ===== src/Upstream.antt =====
-- src/upstream: the upstreams, how they are built, and one call of one of them.
pub mod Call
pub mod Build
pub mod Read
