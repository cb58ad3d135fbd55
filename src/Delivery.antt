-- ===== src/Delivery.antt =====
-- backend/src/services/delivery.service.ts: the deliveries of orders.
pub mod Status
pub mod Store
pub mod Service
pub mod Changes
pub mod Effects
pub mod Taking
pub mod Following
pub mod Stranding
mod Tests
