-- ===== src/MemAccess.antt =====
-- src/sparcv8/MMU.h and MMU.cpp: the memory management unit with its registers, its caches of
-- host pages and the memory behind it.
pub mod Core
pub mod Pointers
pub mod Access
pub mod Atomics
pub mod Hits
pub mod Pages
pub mod Shared
pub mod Reads
pub mod History
pub mod Compare
pub mod Tests
