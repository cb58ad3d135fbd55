-- ===== src/Cart.antt =====
-- Carts: their tables, their service, and what a customer is shown.
pub mod Store
pub mod View
pub mod Service
pub mod Lines
pub mod Totals
pub mod Checks
pub mod Adding
pub mod Isolation
pub mod Merge
pub mod MergedLines
pub mod Merging
pub mod Caps
pub mod Calls
pub mod Tests
