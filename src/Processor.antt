-- ===== src/Processor.antt =====
-- The processor (src/machine/processor): its flags and its arithmetic.
pub mod Flags
pub mod Alu
pub mod Shift
mod Tests
