-- ===== src/Gptimer.antt =====
-- src/peripherals/GPTIMER.h: the general purpose timer unit, two timers behind one prescaler.
pub mod Ops
pub mod Prescaler
pub mod Advance
pub mod OneShot
pub mod Regs
pub mod Control
pub mod Tests
