-- ===== src/Ai.antt =====
-- The AI boundary: apps/api/src/modules/ai.
pub mod Errors
pub mod Service
pub mod Pricing
