-- ===== src/Mmu.antt =====
-- src/sparcv8/MMU.h and MMU.cpp: the reference memory management unit without its memory.
pub mod Tlb
pub mod Walk
pub mod Perms
pub mod Translate
pub mod Rights
pub mod Pages
pub mod Coherent
pub mod Cached
pub mod Forget
pub mod Tests
