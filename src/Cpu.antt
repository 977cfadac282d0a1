-- ===== src/Cpu.antt =====
-- src/sparcv8/CPU.h, CPU.cpp and CPU_instructions.cpp: the processor's integer unit.
pub mod State
pub mod Integer
pub mod Control
pub mod Windows
pub mod Registers
pub mod Flags
pub mod Arithmetic
pub mod Multiply
pub mod Products
pub mod Quotients
pub mod Decode
pub mod Fields
pub mod Loads
pub mod Precise
pub mod Signed
pub mod Cycle
pub mod Traps
pub mod Interrupts
pub mod Tests
pub mod Cases
pub mod MemoryCases
pub mod Special
pub mod Atomics
pub mod Alternate
pub mod Dispatch
pub mod Run
pub mod Reasons
pub mod Turned
pub mod Turns
pub mod RunCases
