-- ===== src/Mctrl.antt =====
-- src/peripherals/MCTRL.h: the memory controller and its banks.
-- The alignment checks and range checks of debug builds are left out: a build without a chosen
-- type defines NDEBUG. An access outside a bank's array, which C++ leaves undefined, gives `none`.
pub mod Bytes
pub mod Generic
pub mod Banks
pub mod Offsets
pub mod Override
pub mod RoundTrip
pub mod Doubleword
pub mod Control
pub mod Disjoint
pub mod Lookup
pub mod Threads
pub mod Access
pub mod Atomic
pub mod Memory
pub mod Tests
