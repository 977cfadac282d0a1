-- ===== src/Ac97.antt =====
-- src/peripherals/ac97.hpp and ac97.cpp: the sound device on the PCI bus.
pub mod State
pub mod Codec
pub mod Playback
pub mod Control
pub mod Ports
pub mod Config
pub mod Invariant
pub mod Calls
pub mod Playable
pub mod Written
pub mod Order
pub mod Tests
