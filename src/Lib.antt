-- ===== src/Lib.antt =====
-- Verification of the SPARC V8 / LEON3 emulator.
--
-- The program runs LEON3 machine code. Each processor (src/sparcv8) fetches through its memory
-- management unit, decodes, executes and writes back; the peripherals (src/peripherals) raise
-- interrupts at IRQMP, which picks a level for each processor and wakes the ones that sleep.
-- The bus clock ticks the timer unit and polls the serial port between instructions.
--
-- Irqmp, from src/peripherals/IRQMP.h and IRQMP.cpp: the interrupt controller. Ops holds the
-- registers and every call (trigger_irq, clear_irq, read, write, reset, attach), Scan the
-- search for the highest level, Hints the invariant of the level that each processor reads
-- without the lock, Deliver what trigger_irq posts and wakes, Clear what clear_irq clears,
-- Power the status register and the masks. A call through a null processor pointer and an
-- exception are outcomes of their own.
--
-- Gptimer, from src/peripherals/GPTIMER.h: the two timers and their prescaler. Ops is the
-- clocked part and the analytic advance_unlocked, Regs the registers. Prescaler and Advance
-- compare the closed form with one clock at a time, OneShot is about a timer that does not
-- restart, Control about a write of a control register.
--
-- Apbuart, from src/peripherals/APBUART.h and console.h: the serial port and the terminal.
-- Console is the escape sequences over a list of typed bytes, Ops the registers and the polls,
-- Fifo the ring of eight bytes as a queue, Stream and Session the characters on their way to
-- the guest.
--
-- Mmu, from src/sparcv8/MMU.h and MMU.cpp: Tlb is the class TLB with its micro-cache, Walk
-- get_PTE, Perms check_perms and the fault registers, Translate translate_va. Memory is a
-- function from a physical address to a word or to a bus error, as mctrl.try_read32 gives
-- them; the theorems hold for every memory, at one point of time. Pages says which bits of an
-- address a walk reads, Rights is about the two ways to test an access, Coherent is the
-- invariant of a TLB, Cached compares translation with and without TLBs, Forget is about
-- invalidation.
--
-- Cpu, from src/sparcv8/CPU.h, CPU.cpp and CPU_instructions.cpp: State is the register file,
-- write-back and the recording of a trap, Integer the arithmetic and logical instructions,
-- Control the windows, branches, jumps and state registers. An instruction maps a decoded
-- instruction and a processor to their next values, or to none where the emulator throws.
-- Flags and Arithmetic are about the condition codes, Windows about SAVE and RESTORE,
-- Registers about reads and writes. Multiply is MUL and DIV, Products and Quotients are about
-- their results. Decode is the decoder with its tables, Fields takes instructions apart that
-- were put together. Cycle is the head of the loop in run, which polls Irqmp; Traps and
-- Interrupts are about the way into a handler and back. Special is SRA, RDY, WRY, TICC, FLUSH
-- and UNIMP, Atomics is SWAP, SWAPA, LDSTUB and CASA, Alternate is LDA and STA
-- (CPU_instructions_extensions.cpp), Dispatch the function of each entry of the instruction
-- tables, Run the fetch and the loop of run. Reasons is about what ends a run, Turned about
-- one turn of that loop and Turns about the chain of its turns. These work on the memory
-- management unit of MemAccess. Loads is the loads and stores over an interface to the memory
-- behind the MMU, which MemAccess.Access fills, Precise about their traps, Signed about signed
-- loads.
--
-- MemAccess, from src/sparcv8/MMU.h and MMU.cpp: the whole unit, with Mmu and Mctrl in its
-- state. Core is the registers, reset, flush and the accesses past the unit, Pointers and
-- Access are MemAccess with its caches of host pages for fetches, loads and stores, Atomics is
-- atomic_swap32 and atomic_casa32. A host pointer is the place of a bank and the address of a
-- page in it. Hits is about accesses that a cached page serves, Pages about the entries that
-- are cached, Shared and Reads about what an access leaves of them, History about runs of
-- accesses, Compare about atomic_casa32. The bank of an address is found by the search alone,
-- since Mctrl.Lookup shows that the thread's cache gives the same bank.
--
-- Mctrl, from src/peripherals/MCTRL.h: the memory controller. Generic is the base class's
-- accesses by single bytes, Banks the ROM and RAM banks, Control the list of banks and the
-- search with the thread's cache, Access and Atomic the accesses at an address. Offsets and
-- Override compare RamBank with its base class, RoundTrip and Doubleword are about what is
-- read back in a bank, Disjoint, Lookup and Threads about the search, Memory about an access
-- through search and bank. The checks of debug builds are left out: an access outside a bank's
-- array gives no result.
--
-- Apbps2, from src/peripherals/APBPS2.h: the keyboard port, which raises its interrupt at
-- Irqmp. Ops is the queue, the answers to commands and the registers, Bound is about the
-- length of the queue, Protocol about the order of the bytes and the acknowledgements.
--
-- Ac97, from src/peripherals/ac97.hpp and ac97.cpp: the sound device. State holds its members
-- and the reads of the guest's memory, Codec the codec's registers, Playback is tick with its
-- descriptors, Control the resets and the writes of the bus master's registers, Ports the
-- reads and the dispatch of addresses, Config the configuration space and the constructor.
-- Calls is the calls as data, Invariant, Playable, Written and Order are about what every call
-- keeps of the playback engine. The frames that the host's clock allows at a tick and the
-- memory of the guest are arguments; the samples for the host are a list.
--
-- Grpci2, from src/peripherals/GRPCI2.hpp and GRPCI2.cpp: the PCI bridge with Ac97 as its
-- device. Registers is read and write with their masks, Config the accesses to the
-- configuration and I/O spaces and the memory bank for them, RoundTrip is about what is read
-- back.
--
-- Words are natural numbers with their wrap-around written out. Loops are structural: the scan
-- of fifteen levels, of the processors and of the sixteen TLB entries recurse on the count of
-- rounds left, the timers on the count of prescaler ticks, the loop of run on the count that
-- run is given, where the source's 0 is a run of any number of turns. No definition runs on
-- other fuel.
--
-- Not modelled: floating point, which is a parameter of Dispatch since it rests on the host's
-- arithmetic; the bus clock, the display, the debugger, the ELF loader, the disassembler, the
-- plug-and-play tables and the main programs; the memory banks of the APB bridge and of the
-- PCI ports as banks of Mctrl. Locks are taken as making each call one step; messages on the
-- console are left out. The functions of the tables that a build without floating point names
-- are no_floating.
pub mod Base
pub mod Irqmp
pub mod Gptimer
pub mod Apbuart
pub mod Mmu
pub mod Cpu
pub mod Mctrl
pub mod MemAccess
pub mod Apbps2
pub mod Ac97
pub mod Grpci2
