-- ===== src/Staff.antt =====
-- Staff accounts: who may change which account and hand out which permission.
pub mod Privilege
pub mod Ceiling
pub mod Tests
