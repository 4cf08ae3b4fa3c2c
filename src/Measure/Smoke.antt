-- ===== src/Measure/Smoke.antt =====
-- src/slidko/measure/smoke.py: the smoke detector's findings and its four checks.
pub mod Finding
pub mod Chatter
pub mod Runt
pub mod Timing
pub mod Incoherence
pub mod Run
