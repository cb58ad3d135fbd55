-- ===== src/Payments.antt =====
-- Payments: backend/src/integrations/razorpay/razorpay.service.ts, and the handler of
-- backend/src/controllers/order.controller.ts that marks a payment failed.
pub mod Gateway
pub mod Confirming
pub mod Webhook
pub mod Refunds
pub mod Failing
pub mod Capturing
pub mod Genuine
pub mod Releasing
pub mod Paise
pub mod Refunded
pub mod AfterCheckout
pub mod Tests
