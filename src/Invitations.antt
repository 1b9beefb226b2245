-- ===== src/Invitations.antt =====
-- api/src/invitations/invitations.service.ts: visits announced in advance. Encrypted columns are
-- what they decrypt to, and the wall clock of a site's zone is a parameter.
mod Tests
pub mod Store
pub mod Writes
pub mod Once
pub mod Guards
pub mod Created
