-- ===== src/Kiosk.antt =====
-- The tablet at reception (api/src/kiosk/kiosk.service.ts), the documents that a guest accepts
-- (api/src/common/site-documents.service.ts) and the images (api/src/common/files.service.ts).
pub mod Documents
pub mod Images
pub mod Store
pub mod Persist
pub mod CheckIn
pub mod Preregistered
pub mod CheckOut
pub mod Accepted
pub mod Search
pub mod Leaving
pub mod Arrival
pub mod Minimal
pub mod Kept
mod Tests
