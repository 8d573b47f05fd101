-- ===== src/Decider.antt =====
-- src/decider.rs and src/decider: who is asked, and in which order.
pub mod Contract
pub mod RoundRobin
pub mod LeastLatency
pub mod Window
pub mod LatencyRefresh
pub mod LatencyOrder
pub mod LatencyRanking
pub mod LeastErrors
pub mod ErrorOrder
pub mod ErrorRanking
pub mod Spawn
pub mod Task
pub mod Life
pub mod Spawned
