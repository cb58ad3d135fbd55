-- ===== src/Checkout.antt =====
-- backend/src/services/checkout.service.ts, and the tables that it shares with the payments.
pub mod Shop
pub mod Pricing
pub mod Rounding
pub mod Service
pub mod Outcome
pub mod Stock
pub mod Money
pub mod Replay
pub mod Rollback
pub mod Transitions
pub mod Changes
pub mod Agreement
pub mod Tests
mod TransitionTests
