-- ===== src/Diagnose.antt =====
-- src/slidko/diagnose: the next diagnostic instruction, and what makes one acceptable.
pub mod ConfigPull
pub mod FaultTree
pub mod Instruction
pub mod Llm
pub mod Diagnose
