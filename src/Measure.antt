-- ===== src/Measure.antt =====
-- src/slidko/measure: what the samples of a capture show.
pub mod Edges
pub mod Smoke
pub mod Intervals
pub mod Best
pub mod Uart
pub mod Dshot
pub mod Recognize
pub mod Spi
pub mod Single
pub mod Whole
pub mod I2c
pub mod Classify
