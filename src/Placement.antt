-- ===== src/Placement.antt =====
-- services/placement-service: where an arrived lot is put.
pub mod Scoring
pub mod Choice
pub mod Jobs
pub mod Routes
pub mod Runs
pub mod Tests
