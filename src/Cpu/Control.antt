-- ===== src/Cpu/Control.antt =====
-- src/sparcv8/CPU.h and CPU_instructions.cpp: register windows, control transfer and the state
-- registers.
use sparcv8emulator.Base.{
  ℕ, ◌+◌, ◌-◌, ◌*◌, ◌%◌, ◌^◌, Bool, not, ◌&&◌, ◌||◌, xor, if◌then◌else◌, leb, ◌==◌, Option, some,
  bit_and, bit_or, bit_xor, testbit, u32, sub32, not32,
}
use sparcv8emulator.Cpu.State.{
  Cpu, Decoded, nwindows, trap, next, result, supervisor, traps_enabled,
}

abbrev pub illegal_instruction : ℕ
illegal_instruction = 0x02

abbrev pub privileged_instruction : ℕ
privileged_instruction = 0x03

abbrev pub window_overflow : ℕ
window_overflow = 0x05

abbrev pub window_underflow : ℕ
window_underflow = 0x06

abbrev pub memory_addr_not_aligned : ℕ
memory_addr_not_aligned = 0x07

-- `(wim >> w) & 1`.
unfoldable pub invalid_window : Cpu → ℕ → Bool
invalid_window s w = testbit s.wim w

unfoldable pub put_cwp : ℕ → ℕ → ℕ
put_cwp cwp psr = bit_or (bit_and psr (not32 0x1f)) (bit_and cwp 0x1f)

-- The end of `SAVE` and of `RESTORE`, in the window `new_cwp`.
unfoldable pub enter_window : ℕ → Decoded → Decoded
enter_window new_cwp d = next (result d.ev (record d { psr = put_cwp new_cwp d.psr }))

unfoldable pub save : Decoded → Cpu → Option (Cpu × Decoded)
save d s =
    let new_cwp = sub32 (bit_and d.psr 0x1f) 1 % nwindows in
    if invalid_window s new_cwp then trap window_overflow d s else some (s, enter_window new_cwp d)

unfoldable pub restore : Decoded → Cpu → Option (Cpu × Decoded)
restore d s =
    let new_cwp = (bit_and d.psr 0x1f + 1) % nwindows in
    if invalid_window s new_cwp then trap window_underflow d s else some (s, enter_window new_cwp d)

unfoldable pub call : Decoded → Cpu → Option (Cpu × Decoded)
call d s =
    some (s, record (result d.pc d) { rd = 15; pc = d.npc; npc = u32 (d.pc + 4 * d.imm_disp_rs2) })

-- `cond >> 3` against a test of the condition codes.
unfoldable pub condition : Decoded → Bool → Bool
condition d b = xor (testbit d.rd 3) b

unfoldable pub test_cc : Decoded → Bool
test_cc d =
    let n = testbit d.psr 23 in
    let z = testbit d.psr 22 in
    let v = testbit d.psr 21 in
    let c = testbit d.psr 20 in
    let cond = bit_and d.rd 7 in
    if cond == 0
    then testbit d.rd 3
    else if cond == 1
    then condition d z
    else if cond == 2
    then condition d (z || xor n v)
    else if cond == 3
    then condition d (xor n v)
    else if cond == 4
    then condition d (c || z)
    else if cond == 5
    then condition d c
    else if cond == 6
    then condition d n
    else condition d v

unfoldable pub annuls : Decoded → Bool
annuls d = testbit d.rd 4 && (not (test_cc d) && not (bit_and d.rd 7 == 0) || bit_and d.rd 7 == 0)

unfoldable pub sign_ext22 : ℕ → ℕ
sign_ext22 n = bit_or n (if testbit n 21 then 0xffc00000 else 0)

unfoldable pub bicc : Decoded → Cpu → Option (Cpu × Decoded)
bicc d s =
    let target =
      if test_cc d then u32 (d.pc + 4 * sign_ext22 d.imm_disp_rs2) else u32 (d.npc + 4) in
    if annuls d
    then some (s, record d { pc = target; npc = u32 (target + 4) })
    else some (s, record d { pc = d.npc; npc = target })

unfoldable pub jmpl : Decoded → Cpu → Option (Cpu × Decoded)
jmpl d s =
    if not (bit_and d.ev 3 == 0)
    then trap memory_addr_not_aligned d s
    else some (s, record (result d.pc d) { pc = d.npc; npc = d.ev })

-- `d->p->s = d->p->ps; d->p->et = 1; d->p->cwp = cwp`.
unfoldable pub return_psr : ℕ → ℕ → ℕ
return_psr cwp psr =
    put_cwp cwp
      (bit_or (bit_or (bit_and psr (not32 (2 ^ 7))) (if testbit psr 6 then 2 ^ 7 else 0)) (2 ^ 5))

unfoldable pub rett : Decoded → Cpu → Option (Cpu × Decoded)
rett d s =
    let new_cwp = (bit_and d.psr 0x1f + 1) % nwindows in
    if traps_enabled d && not (supervisor d) || not (traps_enabled d) && not (supervisor d)
    then trap privileged_instruction d s
    else if traps_enabled d && supervisor d
    then trap illegal_instruction d s
    else if not (bit_and d.ev 3 == 0)
    then trap memory_addr_not_aligned d s
    else if invalid_window s new_cwp
    then trap window_underflow d s
    else some
        (s, record d { pc = d.npc; npc = bit_and d.ev (not32 3); psr = return_psr new_cwp d.psr })

-- An instruction that only the supervisor may execute.
unfoldable pub privileged : Decoded → Cpu → Cpu × Decoded → Option (Cpu × Decoded)
privileged d s r = if supervisor d then some r else trap privileged_instruction d s

unfoldable pub rdpsr : Decoded → Cpu → Option (Cpu × Decoded)
rdpsr d s = privileged d s (s, next (result d.psr d))

unfoldable pub rdwim : Decoded → Cpu → Option (Cpu × Decoded)
rdwim d s = privileged d s (s, next (result s.wim d))

unfoldable pub rdtbr : Decoded → Cpu → Option (Cpu × Decoded)
rdtbr d s = privileged d s (s, next (result s.tbr d))

unfoldable pub wrwim : Decoded → Cpu → Option (Cpu × Decoded)
wrwim d s =
    privileged d s
      (record s { wim = bit_and (bit_xor d.rs1_value d.ev) (2 ^ nwindows - 1) }, next d)

unfoldable pub wrtbr : Decoded → Cpu → Option (Cpu × Decoded)
wrtbr d s = privileged d s (record s { tbr = bit_xor d.rs1_value d.ev }, next d)

-- `fpu` says that the build has a floating-point unit.
unfoldable pub written_psr : Bool → ℕ → ℕ
written_psr fpu v =
    let fixed = bit_or (bit_or (0xf * 2 ^ 28) (3 * 2 ^ 24)) v in
    let no_ec = bit_and fixed (not32 (2 ^ 13)) in
    bit_and (if fpu then no_ec else bit_and no_ec (not32 (2 ^ 12))) (not32 (0x3f * 2 ^ 14))

unfoldable pub wrpsr : Bool → Decoded → Cpu → Option (Cpu × Decoded)
wrpsr fpu d s =
    let v = bit_xor d.rs1_value d.ev in
    if leb nwindows (bit_and v 0x1f)
    then trap illegal_instruction d s
    else privileged d s (s, next (record d { psr = written_psr fpu v }))
