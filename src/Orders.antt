-- ===== src/Orders.antt =====
-- Orders: their lifecycle, the handlers that change it, and the sweep of unpaid orders.
pub mod Status
pub mod Lifecycle
pub mod Store
pub mod Handlers
pub mod Effects
pub mod Cancellation
pub mod Updates
pub mod Sweep
pub mod Claims
pub mod Reaping
pub mod Tests
