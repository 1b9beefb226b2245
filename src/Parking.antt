-- ===== src/Parking.antt =====
-- api/src/parking: company parking. `Rules` has the calendar rules, `Store` the tables with their
-- unique indexes, `Service` the operations.
pub mod Rules
pub mod Store
pub mod Booking
pub mod Weekly
pub mod Keeps
pub mod Unique
mod Tests
