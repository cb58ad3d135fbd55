-- ===== src/Inventory.antt =====
-- backend/src/services/inventory.service.ts: stock levels, reservations and the movement log.
pub mod State
pub mod Rows
pub mod Service
pub mod Admin
pub mod Moves
pub mod Loops
pub mod Consistency
pub mod Upkeep
pub mod History
pub mod RoundTrip
pub mod Restock
mod Tests
pub mod Interleaving
pub mod Availability
pub mod Conservation
pub mod Settling
pub mod Ledger
pub mod Refinement
