-- ===== src/Cta.antt =====
-- app/cta_strategy: strategies and their engine.
pub mod Calls
pub mod TargetPos
pub mod Targets
pub mod Rounding
pub mod Objects
pub mod Events
pub mod Send
pub mod StopOrders
pub mod Orders
pub mod Strategies
pub mod Positions
pub mod Sent
pub mod Stops
pub mod Tracked
pub mod Kept
pub mod Stopped
pub mod Ended
pub mod Histories
