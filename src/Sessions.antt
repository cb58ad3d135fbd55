-- ===== src/Sessions.antt =====
-- backend/src/services/auth.service.ts: the refresh tokens of sessions.
pub mod Tokens
pub mod Reuse
mod Tests
