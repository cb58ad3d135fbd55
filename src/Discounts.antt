-- ===== src/Discounts.antt =====
-- backend/src/services/discount.service.ts: coupons, from evaluation to recorded use.
pub mod Coupon
pub mod Service
pub mod Coverage
pub mod Amounts
pub mod Limits
pub mod Editing
pub mod Tests
