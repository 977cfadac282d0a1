-- ===== src/Irqmp.antt =====
-- src/peripherals/IRQMP.h and IRQMP.cpp: the multiprocessor interrupt controller.
-- A register array is a function from the index; the code uses indices below 8 only.
-- Each call runs under the controller's lock, so it is one step.
pub mod Ops
pub mod Scan
pub mod Hints
pub mod Deliver
pub mod Clear
pub mod Power
pub mod Tests
pub use Ops.*
