-- ===== src/Access.antt =====
-- Door access (api/src/access/access.service.ts) and the phone badge (mobile/src/lib/badge.ts).
mod Tests
pub mod Rules
pub mod Qr
pub mod Badge
pub mod Verify
pub mod Activation
pub mod Sync
