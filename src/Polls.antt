-- ===== src/Polls.antt =====
-- internal/polls: sign-up sheets.
pub mod Store
pub mod Claims
pub mod Scoring
pub mod Roster
pub mod Schemas
pub mod Service
pub mod Participants
