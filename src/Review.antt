-- ===== src/Review.antt =====
-- Reviews: apps/api/src/modules/review.
pub mod Types
pub mod Policy
pub mod Persistence
pub mod Sample
pub mod Repository
pub mod Processing
