-- ===== src/Apbuart.antt =====
-- src/peripherals/APBUART.h and console.h: the serial port and the terminal behind it.
pub mod Console
pub mod Ops
pub mod Fifo
pub mod Stream
pub mod Session
pub mod Tests
