-- ===== src/Addresses.antt =====
-- backend/src/services/address.service.ts: the address books of customers.
pub mod Book
pub mod Defaults
