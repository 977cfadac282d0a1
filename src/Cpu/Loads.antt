-- ===== src/Cpu/Loads.antt =====
-- src/sparcv8/CPU.cpp and CPU_instructions.cpp: loads and stores. The memory behind the memory
-- management unit, `MemAccess`, is an interface: `Port` is what the processor uses of it.
use sparcv8emulator.Base.{
  ℕ, ◌+◌, Bool, true, false, not, ◌&&◌, if◌then◌else◌, ◌==◌, Option, none, some, bit_and, bit_or,
  testbit, u32, not32,
}
use sparcv8emulator.Cpu.State.{Cpu, Decoded, write_reg, trap, next}
use sparcv8emulator.Cpu.Control.{memory_addr_not_aligned, illegal_instruction}
use sparcv8emulator.Cpu.Decode.{read_into}

-- The functions of the instruction table that load and store registers.
pub data MemoryFunction : Type 0 where
  ld ldub lduh ldd ldsb ldsh : MemoryFunction
  st stb sth std : MemoryFunction

abbrev pub data_access_exception : ℕ
data_access_exception = 0x09

-- Of a size in bytes, at a virtual address, in supervisor mode or not. A load without a value and
-- a store that is false are the negative results, which report a fault.
pub record Port (M : Type 0) : Type 0 where
  pub load : ℕ → ℕ → Bool → M → Option ℕ × M
  pub store : ℕ → ℕ → ℕ → Bool → M → Bool × M
  pub no_fault : M → Bool

unfoldable pub super : Cpu → Bool
super s = testbit s.psr 7

unfoldable pub extended8 : Bool → ℕ → ℕ
extended8 signext v = bit_or v (if signext && testbit v 7 then 0xffffff00 else 0)

unfoldable pub extended16 : Bool → ℕ → ℕ
extended16 signext v = bit_or v (if signext && testbit v 15 then 0xffff0000 else 0)

module _ {M : Type 0} (port : Port M) where
  -- The register is written if there is a value.
  unfoldable pub loaded : (ℕ → ℕ) → ℕ → Cpu → Option ℕ × M → Bool × (M × Cpu)
  loaded extend rd s (none, m) = (false, (m, s))
  loaded extend rd s (some v, m) = (true, (m, write_reg (extend v) rd s))

  unfoldable pub load8 : ℕ → ℕ → Bool → M × Cpu → Bool × (M × Cpu)
  load8 va rd signext (m, s) = loaded (extended8 signext) rd s (port.load 1 va (super s) m)

  unfoldable pub load16 : ℕ → ℕ → Bool → M × Cpu → Bool × (M × Cpu)
  load16 va rd signext (m, s) = loaded (extended16 signext) rd s (port.load 2 va (super s) m)

  unfoldable pub load32 : ℕ → ℕ → Bool → M × Cpu → Bool × (M × Cpu)
  load32 va rd signext (m, s) = loaded (extended8 signext) rd s (port.load 4 va (super s) m)

  -- Both registers are written, or none.
  unfoldable pub loaded_pair : ℕ → Cpu → Option ℕ → Option ℕ × M → Bool × (M × Cpu)
  loaded_pair rd s none (w, m) = (false, (m, s))
  loaded_pair rd s (some v) (none, m) = (false, (m, s))
  loaded_pair rd s (some v) (some w, m) = (true, (m, write_reg w (rd + 1) (write_reg v rd s)))

  unfoldable pub load64 : ℕ → ℕ → M × Cpu → Bool × (M × Cpu)
  load64 va rd (m, s) =
      let (v, m') = port.load 4 va (super s) m in
      loaded_pair rd s v (port.load 4 (u32 (va + 4)) (super s) m')

  unfoldable pub store_one : ℕ → ℕ → ℕ → M × Cpu → Bool × (M × Cpu)
  store_one size va rd (m, s) =
      let (done, m') = port.store size va (read_into rd s 0) (super s) m in (done, (m', s))

  unfoldable pub store64 : ℕ → ℕ → M × Cpu → Bool × (M × Cpu)
  store64 va rd (m, s) =
      let value = read_into rd s 0 in
      let (done, m') = port.store 4 va value (super s) m in
      let (done', m'') = port.store 4 (u32 (va + 4)) (read_into (rd + 1) s value) (super s) m' in
      (done && done', (m'', s))

  abbrev pub with_memory : M → Option (Cpu × Decoded) → Option ((M × Cpu) × Decoded)
  with_memory m none = none
  with_memory m (some (s, d)) = some ((m, s), d)

  unfoldable pub trapped : ℕ → Decoded → M × Cpu → Option ((M × Cpu) × Decoded)
  trapped trap_no d (m, s) = with_memory m (trap trap_no d s)

  -- A fault traps unless the unit is told not to report it.
  unfoldable pub finish : Decoded → Decoded → Bool × (M × Cpu) → Option ((M × Cpu) × Decoded)
  finish d d' (done, (m, s)) =
      if not done && not (port.no_fault m)
      then trapped data_access_exception d (m, s)
      else some ((m, s), next d')

  -- An access of `size` bytes to an aligned address.
  unfoldable pub aligned :
      ℕ → Decoded → M × Cpu → Option ((M × Cpu) × Decoded) → Option ((M × Cpu) × Decoded)
  aligned mask d x rest =
      if bit_and d.ev mask == 0 then rest else trapped memory_addr_not_aligned d x

  unfoldable pub even_rd :
      Decoded → M × Cpu → Option ((M × Cpu) × Decoded) → Option ((M × Cpu) × Decoded)
  even_rd d x rest = if testbit d.rd 0 then trapped illegal_instruction d x else rest

  unfoldable pub memory_access : MemoryFunction → Decoded → M × Cpu → Option ((M × Cpu) × Decoded)
  memory_access ld d x = aligned 3 d x (finish d d (load32 d.ev d.rd false x))
  memory_access ldub d x = finish d d (load8 d.ev d.rd false x)
  memory_access lduh d x = aligned 1 d x (finish d d (load16 d.ev d.rd false x))
  memory_access ldd d x =
      even_rd d x (aligned 7 d x (finish d d (load64 d.ev (bit_and d.rd (not32 1)) x)))
  memory_access ldsb d x = finish d d (load8 d.ev d.rd true x)
  memory_access ldsh d x = aligned 1 d x (finish d d (load16 d.ev d.rd true x))
  memory_access st d x = aligned 3 d x (finish d d (store_one 4 d.ev d.rd x))
  memory_access stb d x = finish d d (store_one 1 d.ev d.rd x)
  memory_access sth d x = aligned 1 d x (finish d d (store_one 2 d.ev d.rd x))
  memory_access std d x =
      even_rd d x
        (aligned 7 d x (finish d (record d { rd = bit_and d.rd (not32 1) }) (store64 d.ev d.rd x)))
