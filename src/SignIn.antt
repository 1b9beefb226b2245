-- ===== src/SignIn.antt =====
-- Signing in to the console: api/src/auth/auth.controller.ts, api/src/auth/session.service.ts and
-- api/src/common/totp.ts.
mod Tests
pub mod Store
pub mod Totp
pub mod Login
pub mod Once
pub mod Lock
pub mod Mfa
