-- ===== src/Visits.antt =====
-- Visits: the data, the console, anonymisation and retention (api/src/entities/visit.entity.ts,
-- api/src/admin/visits.service.ts, api/src/common/visit-lifecycle.service.ts,
-- api/src/retention/retention.service.ts).
pub mod Store
pub mod Sample
pub mod Lifecycle
pub mod Once
pub mod Retention
pub mod Expired
pub mod Swept
pub mod Console
pub mod Scope
pub mod Erased
mod Tests
