-- ===== src/Notices.antt =====
-- The notices that the system sends: webhooks, push and mail (api/src/common/webhooks.service.ts,
-- api/src/common/push.service.ts, api/src/retention/mail-outbox.service.ts).
pub mod Store
pub mod Hooks
pub mod Push
pub mod Backlog
pub mod Mail
pub mod Turns
pub mod Drained
pub mod Ends
pub mod Retries
pub mod Render
pub mod Queued
mod Tests
