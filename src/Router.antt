-- ===== src/Router.antt =====
-- The router (intelliroute/router/).
pub mod Queue
pub mod Provider
pub mod Fallback
pub mod Quota
pub mod Completion
pub mod Brownout
pub mod Registry
pub mod Feedback
pub mod Policy
pub mod PolicyEngine
pub mod Classify
pub mod Tuner
pub mod UserFeedback
pub mod Modes
pub mod Dispatch
pub mod Worker
pub mod Client
pub mod Finish
pub mod Answering
mod Tests
