-- ===== src/Parcels.antt =====
-- api/src/admin/parcels.controller.ts: parcels left at reception, with the notice that
-- api/src/common/push.service.ts queues. Encrypted columns are what they decrypt to.
mod Tests
pub mod Desk
pub mod Handover
