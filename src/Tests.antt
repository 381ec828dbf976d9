-- ===== src/Tests.antt =====
-- Runs of the modelled code on concrete inputs.
mod Data
mod Scheduler
mod Slots
mod Bookings
mod SignUp
mod Text
mod Meals
mod Lifecycle
mod Sheets
mod Answers
mod Hours
