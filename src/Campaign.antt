-- ===== src/Campaign.antt =====
-- The campaign engine: apps/api/src/modules/campaigns.
pub mod Model
pub mod Planner
pub mod Delivery
pub mod Scheduler
pub mod Execute
pub mod Pass
pub mod Service
pub mod Lifecycle
pub mod Rescue
pub mod Unsubscribe
pub mod Trace
mod Examples
