-- ===== src/Proxy.antt =====
-- src/proxy: one request from the body to the response.
pub mod Reply
pub mod Attempt
pub mod Walk
pub mod WalkLaws
pub mod Hedge
pub mod HedgeLaws
pub mod HedgeTurns
pub mod HedgeResult
pub mod HedgeSource
pub mod HedgeEnd
pub mod SingleFlight
pub mod SingleFlightLaws
pub mod SingleFlightSteps
pub mod WalkEffects
pub mod Pipeline
pub mod Coalesce
pub mod Once
pub mod Flights
pub mod Told
pub mod Counts
pub mod TurnTold
pub mod RaceTold
pub mod RaceTallied
pub mod Traces
pub mod RaceTraced
pub mod RaceTells
pub mod WalkTold
pub mod Request
pub mod Served
pub mod Answers
