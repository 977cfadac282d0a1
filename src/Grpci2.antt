-- ===== src/Grpci2.antt =====
-- src/peripherals/GRPCI2.hpp and GRPCI2.cpp: the bridge to the PCI bus.
pub mod Registers
pub mod Config
pub mod RoundTrip
pub mod Tests
