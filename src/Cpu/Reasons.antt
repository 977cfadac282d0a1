-- ===== src/Cpu/Reasons.antt =====
-- src/sparcv8/CPU_instructions.cpp: an instruction goes on, or ends the run as UNIMP does.
use sparcv8emulator.Base.{
  ℕ, ◌≡◌, refl, inl, inr, ◌⊎◌, Bool, true, false, not, ◌&&◌, ◌||◌, if◌then◌else◌, ◌==◌, Bool-cases,
  Option, none, some, bit_and, bit_xor,
}
use sparcv8emulator.Mctrl.Bytes.{◌>>=◌}
use sparcv8emulator.Mmu.Translate.{Translation}
use sparcv8emulator.MemAccess.Core.{Srmmu, get_bank}
use sparcv8emulator.Mctrl.Atomic.{AtomicResult}
use sparcv8emulator.MemAccess.Atomics.{atomic_casa32}
use sparcv8emulator.Cpu.State.{Cpu, Decoded, trap, next, result, supervisor}
use sparcv8emulator.Cpu.Control.{
  privileged_instruction, illegal_instruction, memory_addr_not_aligned,
}
use sparcv8emulator.Cpu.Decode.{
  read_into, Operation, unimp, call, bicc, sethi, fbfcc, add, logic, mul, div, mulscc, sll, srl,
  sra, rdy, rdpsr, rdwim, rdtbr, wry, wrpsr, wrwim, wrtbr, fop1, fop2, jmpl, rett, ticc, flush,
  save, restore, ld, ldub, lduh, ldd, st, stb, sth, std, ldsb, ldsh, ldstub, swap, lda, sta, swapa,
  casa, ldf, ldfsr, lddf, stf, stfsr, stdfq, stdf,
}
use sparcv8emulator.Cpu.Loads.{data_access_exception}
use sparcv8emulator.Cpu.Special
use sparcv8emulator.Cpu.Special.{TerminateReason, instruction, unimp_reason, Ended}
use sparcv8emulator.Cpu.Atomics
use sparcv8emulator.Cpu.Atomics.{Executed, going_on, traps_with, old_to_rd}
use sparcv8emulator.Cpu.Alternate
use sparcv8emulator.Cpu.Dispatch.{
  Floating, may_end, over_port, through_port, no_floating, execute_function,
}

-- The run goes on, or it ends with the reason of UNIMP.
unfoldable pub EndsAsUnimp : Decoded → Option Executed → Type 0
EndsAsUnimp d none = Unit
EndsAsUnimp d (some (r, x)) = (r ≡ instruction) ⊎ (r ≡ unimp_reason d)

stops : (d : Decoded) → EndsAsUnimp d none
unfolding EndsAsUnimp
stops d = tt

goes_on : (d : Decoded) (x : Srmmu × (Cpu × Decoded)) → EndsAsUnimp d (some (instruction, x))
unfolding EndsAsUnimp
goes_on d x = inl refl

unimps : (d : Decoded) (x : Srmmu × (Cpu × Decoded)) → EndsAsUnimp d (some (unimp_reason d, x))
unfolding EndsAsUnimp
unimps d x = inr refl

going : (d : Decoded) (u : Srmmu) (o : Option (Cpu × Decoded)) → EndsAsUnimp d (going_on u o)
going d u none = stops d
going d u (some x) = goes_on d (u, x)

port_going :
    (d : Decoded) (o : Option ((Option Srmmu × Cpu) × Decoded)) → EndsAsUnimp d (over_port o)
unfolding over_port
port_going d none = stops d
port_going d (some ((none, s), d')) = stops d
port_going d (some ((some u, s), d')) = goes_on d (u, (s, d'))

bound :
    {A : Type 0} (d : Decoded) (o : Option A) (f : A → Option Executed)
    → ((x : A) → EndsAsUnimp d (f x))
    → EndsAsUnimp d (o >>= f)
bound d none f h = stops d
bound d (some x) f h = h x

chosen :
    (b : Bool) (d : Decoded) (o o' : Option Executed)
    → EndsAsUnimp d o
    → EndsAsUnimp d o'
    → EndsAsUnimp d (if b then o else o')
chosen true d o o' h h' = h
chosen false d o o' h h' = h'

traps_going : (n : ℕ) (d : Decoded) (u : Srmmu) (s : Cpu) → EndsAsUnimp d (traps_with n d u s)
unfolding traps_with
traps_going n d u s = going d u (trap n d s)

old_to_rd_going :
    (rd : ℕ) (d : Decoded) (s : Cpu) (x : AtomicResult × Srmmu) → EndsAsUnimp d (old_to_rd rd d s x)
unfolding old_to_rd
old_to_rd_going rd d s (r, u) = chosen _ d _ _ (traps_going _ d u s) (goes_on d _)

swap_word_going : (d : Decoded) (u : Srmmu) (s : Cpu) → EndsAsUnimp d (Atomics.swap_word d u s)
unfolding Atomics.swap_word
swap_word_going d u s =
    chosen _ d _ _ (traps_going _ d u s) (bound d _ _ (λ x. old_to_rd_going d.rd d _ x))

swapa_going : (d : Decoded) (u : Srmmu) (s : Cpu) → EndsAsUnimp d (Atomics.swapa d u s)
unfolding Atomics.swapa
swapa_going d u s =
    chosen _ d _ _ (unimps d _) (chosen _ d _ _ (traps_going _ d u s) (swap_word_going d u s))

translated_going :
    (d : Decoded) (s : Cpu) (x : Srmmu × Translation)
    → EndsAsUnimp d (Atomics.ldstub_translated d s x)
unfolding Atomics.ldstub_translated
translated_going d s (u, r) = elim (Bool-cases r.ok) [
  | inl e ↦ simp e (
      bound d (Atomics.ldstub_at r.pa (get_bank r.pa u.mctrl) u) _ (λ y.
        elim (Bool-cases y.0.success) [
          | inl k ↦ simp k (goes_on d _)
          | inr k ↦ simp k (traps_going data_access_exception d y.1 s)
        ]))
  | inr e ↦ simp e (traps_going data_access_exception d u s)
]

ldstub_going : (d : Decoded) (u : Srmmu) (s : Cpu) → EndsAsUnimp d (Atomics.ldstub d u s)
unfolding Atomics.ldstub
ldstub_going d u s = bound d _ _ (λ x. translated_going d s x)

casa_going : (d : Decoded) (u : Srmmu) (s : Cpu) → EndsAsUnimp d (Atomics.casa d u s)
unfolding Atomics.casa Atomics.casa_result
casa_going d u s =
    let addr = read_into (bit_and d.rs1 0x1f) s 0 in
    elim (Bool-cases (not (supervisor d) && not (Atomics.casa_asi d == 0xa))) [
      | inl e ↦ simp e (traps_going privileged_instruction d u s)
      | inr e ↦ elim (Bool-cases (not (bit_and addr 3 == 0))) [
        | inl k ↦ simp (e, k) (traps_going memory_addr_not_aligned d u s)
        | inr k ↦ elim (Bool-cases (Atomics.casa_asi d == 0xa || Atomics.casa_asi d == 0xb)) [
          | inl a ↦
              simp (e, k, a)
                (bound d
                  (atomic_casa32 addr (Atomics.casa_asi d == 0xb)
                    (read_into (bit_and d.imm_disp_rs2 0x1f) s 0)
                    (read_into (bit_and d.rd 0x1f) s 0) u)
                  _ (λ x. old_to_rd_going (bit_and d.rd 0x1f) d s (x.0, x.1.1)))
          | inr a ↦ simp (e, k, a) (stops d)
        ]
      ]
    ]

alternate_going :
    (d : Decoded) (u : Srmmu) (s : Cpu) (rest : Option Executed)
    → EndsAsUnimp d rest
    → EndsAsUnimp d (Alternate.alternate d u s rest)
unfolding Alternate.alternate
alternate_going d u s rest h =
    chosen (not (supervisor d)) d (traps_with privileged_instruction d u s)
      (if d.i then traps_with illegal_instruction d u s else rest)
      (traps_going privileged_instruction d u s)
      (chosen d.i d (traps_with illegal_instruction d u s) rest
        (traps_going illegal_instruction d u s) h)

lda_done_going :
    (d : Decoded) (s : Cpu) (o : Option (ℕ × Srmmu)) → EndsAsUnimp d (Alternate.lda_done d s o)
unfolding Alternate.lda_done
lda_done_going d s none = stops d
lda_done_going d s (some (v, u)) = goes_on d _

sta_done_going :
    (d : Decoded) (s : Cpu) (o : Option Srmmu) → EndsAsUnimp d (Alternate.sta_done d s o)
unfolding Alternate.sta_done
sta_done_going d s none = stops d
sta_done_going d s (some u) = goes_on d _

lda_going : (d : Decoded) (u : Srmmu) (s : Cpu) → EndsAsUnimp d (Alternate.lda d u s)
unfolding Alternate.lda
lda_going d u s = alternate_going d u s _ (chosen _ d _ _ (lda_done_going d s _) (stops d))

sta_going : (d : Decoded) (u : Srmmu) (s : Cpu) → EndsAsUnimp d (Alternate.sta d u s)
unfolding Alternate.sta
sta_going d u s =
    alternate_going d u s _ (chosen _ d _ _ (sta_done_going d s _) (traps_going _ d u s))

ended_on :
    (d : Decoded) (u : Srmmu) (x : Cpu × Decoded) → EndsAsUnimp d (may_end u (instruction, x))
unfolding may_end
ended_on d u x = goes_on d (u, x)

ended_unimp :
    (d : Decoded) (u : Srmmu) (x : Cpu × Decoded) → EndsAsUnimp d (may_end u (unimp_reason d, x))
unfolding may_end
ended_unimp d u x = unimps d (u, x)

picked :
    (b : Bool) (d : Decoded) (u : Srmmu) (e e' : Ended)
    → EndsAsUnimp d (may_end u e)
    → EndsAsUnimp d (may_end u e')
    → EndsAsUnimp d (may_end u (if b then e else e'))
picked true d u e e' h h' = h
picked false d u e e' h h' = h'

rdy_going : (d : Decoded) (u : Srmmu) (s : Cpu) → EndsAsUnimp d (may_end u (Special.rdy d s))
unfolding Special.rdy
rdy_going d u s =
    let reads = bit_and d.op_2_3 0x2f == 0x28 in
    picked (d.rs1 == 15 && d.rd == 0) d u (instruction, (s, next d)) _ (ended_on d u (s, next d))
      (picked (d.rs1 == 0 && reads) d u (instruction, (s, next (result s.y_reg d))) _
        (ended_on d u (s, next (result s.y_reg d)))
        (picked (d.rs1 == 17 && reads) d u (instruction, (s, next (result (Special.asr17 s) d)))
          (unimp_reason d, (s, next d)) (ended_on d u (s, next (result (Special.asr17 s) d)))
          (ended_unimp d u (s, next d))))

wry_going : (d : Decoded) (u : Srmmu) (s : Cpu) → EndsAsUnimp d (may_end u (Special.wry d s))
unfolding Special.wry
wry_going d u s =
    let t = record s { y_reg = bit_xor d.rs1_value d.ev } in
    picked (bit_and d.rd 0x1f == 0) d u (instruction, (t, next d)) _ (ended_on d u (t, next d))
      (picked (d.rd == 19) d u (instruction, (s, next d)) (unimp_reason d, (s, next d))
        (ended_on d u (s, next d)) (ended_unimp d u (s, next d)))

-- The floating-point functions of a build.
abbrev pub FloatingEndsAsUnimp : Floating → Type 0
FloatingEndsAsUnimp floating =
    (function : Operation) (d : Decoded) (u : Srmmu) (s : Cpu)
    → EndsAsUnimp d (floating function d u s)

pub no_floating-EndsAsUnimp : FloatingEndsAsUnimp no_floating
unfolding no_floating
no_floating-EndsAsUnimp function d u s = unimps d _

module _ (floating : Floating) (fpu : Bool) (ends : FloatingEndsAsUnimp floating) where
  pub execute_function-EndsAsUnimp :
      (function : Operation) (d : Decoded) (u : Srmmu) (s : Cpu)
      → EndsAsUnimp d (execute_function floating fpu function d u s)
  unfolding execute_function through_port
  execute_function-EndsAsUnimp unimp d u s = unimps d _
  execute_function-EndsAsUnimp call d u s = going d u _
  execute_function-EndsAsUnimp bicc d u s = going d u _
  execute_function-EndsAsUnimp sethi d u s = going d u _
  execute_function-EndsAsUnimp fbfcc d u s = ends fbfcc d u s
  execute_function-EndsAsUnimp add d u s = going d u _
  execute_function-EndsAsUnimp logic d u s = going d u _
  execute_function-EndsAsUnimp mul d u s = going d u _
  execute_function-EndsAsUnimp div d u s = going d u _
  execute_function-EndsAsUnimp mulscc d u s = going d u _
  execute_function-EndsAsUnimp sll d u s = going d u _
  execute_function-EndsAsUnimp srl d u s = going d u _
  execute_function-EndsAsUnimp sra d u s = going d u _
  execute_function-EndsAsUnimp rdy d u s = rdy_going d u s
  execute_function-EndsAsUnimp rdpsr d u s = going d u _
  execute_function-EndsAsUnimp rdwim d u s = going d u _
  execute_function-EndsAsUnimp rdtbr d u s = going d u _
  execute_function-EndsAsUnimp wry d u s = wry_going d u s
  execute_function-EndsAsUnimp wrpsr d u s = going d u _
  execute_function-EndsAsUnimp wrwim d u s = going d u _
  execute_function-EndsAsUnimp wrtbr d u s = going d u _
  execute_function-EndsAsUnimp fop1 d u s = ends fop1 d u s
  execute_function-EndsAsUnimp fop2 d u s = ends fop2 d u s
  execute_function-EndsAsUnimp jmpl d u s = going d u _
  execute_function-EndsAsUnimp rett d u s = going d u _
  execute_function-EndsAsUnimp ticc d u s = going d u _
  execute_function-EndsAsUnimp flush d u s = going d u _
  execute_function-EndsAsUnimp save d u s = going d u _
  execute_function-EndsAsUnimp restore d u s = going d u _
  execute_function-EndsAsUnimp ld d u s = port_going d _
  execute_function-EndsAsUnimp ldub d u s = port_going d _
  execute_function-EndsAsUnimp lduh d u s = port_going d _
  execute_function-EndsAsUnimp ldd d u s = port_going d _
  execute_function-EndsAsUnimp st d u s = port_going d _
  execute_function-EndsAsUnimp stb d u s = port_going d _
  execute_function-EndsAsUnimp sth d u s = port_going d _
  execute_function-EndsAsUnimp std d u s = port_going d _
  execute_function-EndsAsUnimp ldsb d u s = port_going d _
  execute_function-EndsAsUnimp ldsh d u s = port_going d _
  execute_function-EndsAsUnimp ldstub d u s = ldstub_going d u s
  execute_function-EndsAsUnimp swap d u s = swap_word_going d u s
  execute_function-EndsAsUnimp lda d u s = lda_going d u s
  execute_function-EndsAsUnimp sta d u s = sta_going d u s
  execute_function-EndsAsUnimp swapa d u s = swapa_going d u s
  execute_function-EndsAsUnimp casa d u s = casa_going d u s
  execute_function-EndsAsUnimp ldf d u s = ends ldf d u s
  execute_function-EndsAsUnimp ldfsr d u s = ends ldfsr d u s
  execute_function-EndsAsUnimp lddf d u s = ends lddf d u s
  execute_function-EndsAsUnimp stf d u s = ends stf d u s
  execute_function-EndsAsUnimp stfsr d u s = ends stfsr d u s
  execute_function-EndsAsUnimp stdfq d u s = ends stdfq d u s
  execute_function-EndsAsUnimp stdf d u s = ends stdf d u s
