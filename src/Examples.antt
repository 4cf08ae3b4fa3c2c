-- ===== src/Examples.antt =====
-- Concrete inputs, and the theorems at them. The floats are `Ratio`, the arrays are `plain_numpy`.
pub mod Arrays
pub mod Files
pub mod Lines
pub mod Corpus
pub mod Discriminators
pub mod Decoding
pub mod Signals
pub mod Adapters
pub mod Classifying
pub mod Smoke
pub mod Narration
pub mod Repair
pub mod Inferred
pub mod Supported
