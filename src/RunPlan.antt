-- ===== src/RunPlan.antt =====
-- The Shared Run Plan of the CFO (CFOFrontEndInterfaceImpl.cc): the ratio M:N of events, the
-- operations of the plan, and the duration read back from the CFO.
pub mod Types
pub mod Double
pub mod Ratio
pub mod Plan
pub mod Extract
pub mod Macros
pub mod SingleShot
mod Tests
mod MacroTests
