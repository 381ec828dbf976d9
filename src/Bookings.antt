-- ===== src/Bookings.antt =====
-- Booking pages: internal/bookings.
pub mod Availability
pub mod Store
pub mod Outcome
pub mod Effects
pub mod Input
pub mod Service
pub mod Pages
