-- ===== src/Apbps2.antt =====
-- src/peripherals/APBPS2.h: the PS/2 keyboard port. Each call runs under the port's lock, so it is
-- one step; the interrupt is raised after the lock is released.
pub mod Ops
pub mod Bound
pub mod Protocol
pub mod Tests
