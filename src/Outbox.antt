-- ===== src/Outbox.antt =====
-- backend/src/services/email-outbox.service.ts: the durable queue of transactional e-mail.
pub mod Store
pub mod Worker
pub mod Ticks
pub mod Attempts
pub mod Termination
pub mod Dedupe
mod Tests
