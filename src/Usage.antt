-- ===== src/Usage.antt =====
-- Quota admissions and usage: apps/api/src/modules/usage.
pub mod Admission
pub mod Finalizer
