-- ===== src/Apbps2/Bound.antt =====
-- src/peripherals/APBPS2.h: the queue holds at most 32 bytes, whatever the calls are.
use sparcv8emulator.Base.{
  ℕ, ◌+◌, ◌≤◌, ◌<◌, ◌≡◌, inl, inr, Bool, true, false, if◌then◌else◌, ltb, ◌==◌, Bool-cases, List,
  [], ◌∷◌, ◌++◌, bit_and, u8, arith,
}
use sparcv8emulator.Irqmp.Ops.{Irqmp}
use sparcv8emulator.Apbps2.Ops.{
  TxState, idle, wait_f0, wait_ed, wait_f3, Apbps2, construct, reset, size, push, ack, awaiting,
  command, respond, tx_respond, notify, push_byte, pop_byte, read, write,
}

pub size-snoc : (bs : List ℕ) (b : ℕ) → size (bs ++ (b ∷ [])) ≡ size bs + 1
unfolding size
size-snoc [] b = omega arith
size-snoc (c ∷ cs) b = omega (arith, size-snoc cs b)

abbrev pub IsBounded : Apbps2 → Type 0
IsBounded s = size s.rxq ≤ 32

push-IsBounded : (b : ℕ) (s : Apbps2) → IsBounded s → IsBounded (push b s)
unfolding push
push-IsBounded b s h = elim (Bool-cases (ltb (size s.rxq) 32)) [
  | inl e ↦
      let room : size s.rxq < 32 = ground (arith, e) in
      simp e (omega (arith, size-snoc s.rxq b, room))
  | inr e ↦ simp e h
]

ack-IsBounded : (s : Apbps2) → IsBounded s → IsBounded (ack s)
unfolding ack
ack-IsBounded s h = push-IsBounded 0xfa s h

if_case : (b : Bool) (s t : Apbps2) → IsBounded s → IsBounded t → IsBounded (if b then s else t)
if_case true s t h h' = h
if_case false s t h h' = h'

command-IsBounded : (cmd : ℕ) (s : Apbps2) → IsBounded s → IsBounded (command cmd s)
unfolding command awaiting
command-IsBounded cmd s h =
    let acked = ack-IsBounded s h in
    if_case (cmd == 0xff) (push 0xaa (ack s)) _ (push-IsBounded 0xaa (ack s) acked) (
      if_case (cmd == 0xf2) (push 0x83 (push 0xab (ack s))) _
        (push-IsBounded 0x83 (push 0xab (ack s)) (push-IsBounded 0xab (ack s) acked))
        (if_case (cmd == 0xf0) (awaiting wait_f0 (ack s)) _ acked (
          if_case (cmd == 0xed) (awaiting wait_ed (ack s)) _ acked (
            if_case (cmd == 0xf3) (awaiting wait_f3 (ack s)) _ acked
              (if_case (cmd == 0xee) (push 0xee s) _ (push-IsBounded 0xee s h) acked)))))

respond-IsBounded : (t : TxState) (cmd : ℕ) (s : Apbps2) → IsBounded s → IsBounded (respond t cmd s)
unfolding respond awaiting
respond-IsBounded idle cmd s h = command-IsBounded cmd s h
respond-IsBounded wait_ed cmd s h = ack-IsBounded (awaiting idle s) h
respond-IsBounded wait_f3 cmd s h = ack-IsBounded (awaiting idle s) h
respond-IsBounded wait_f0 cmd s h =
    let acked = ack-IsBounded (awaiting idle s) h in
    if_case (cmd == 0x00) (push 0x02 (ack (awaiting idle s))) _
      (push-IsBounded 0x02 (ack (awaiting idle s)) acked) acked

pop_byte-IsBounded :
    (q : List ℕ) (s : Apbps2) → size q ≤ 32 → IsBounded s → IsBounded (pop_byte q s).1
unfolding pop_byte size
pop_byte-IsBounded [] s h h' = h'
pop_byte-IsBounded (b ∷ bs) s h h' = omega (arith, h)

-- A call, with the interrupt controller as it finds it.
pub data Call : Type 0 where
  presses : Irqmp → ℕ → Call
  writes : Irqmp → ℕ → ℕ → Call
  reads : ℕ → Call
  resets : Call

unfoldable pub called : Call → Apbps2 → Apbps2
called (presses intc byte) s = (push_byte byte (intc, s)).1
called (writes intc offset value) s = (write offset value (intc, s)).1
called (reads offset) s = (read offset s).1
called resets s = reset s

unfoldable pub calls : List Call → Apbps2 → Apbps2
calls [] s = s
calls (c ∷ cs) s = calls cs (called c s)

write-IsBounded :
    (offset value : ℕ) (intc : Irqmp) (s : Apbps2)
    → IsBounded s
    → IsBounded (write offset value (intc, s)).1
unfolding write notify tx_respond
write-IsBounded offset value intc s h = elim (Bool-cases (bit_and offset 0x0c == 0x00)) [
  | inl e ↦ simp e (respond-IsBounded s.tx_state (bit_and value 0xff) s h)
  | inr e ↦ elim (Bool-cases (bit_and offset 0x0c == 0x08)) [
    | inl e' ↦ simp (e, e') h
    | inr e' ↦ simp (e, e') h
  ]
]

read-IsBounded : (offset : ℕ) (s : Apbps2) → IsBounded s → IsBounded (read offset s).1
unfolding read
read-IsBounded offset s h = elim (Bool-cases (bit_and offset 0x0c == 0x00)) [
  | inl e ↦ simp e (pop_byte-IsBounded s.rxq s h h)
  | inr e ↦ elim (Bool-cases (bit_and offset 0x0c == 0x04)) [
    | inl e' ↦ simp (e, e') h
    | inr e' ↦ elim (Bool-cases (bit_and offset 0x0c == 0x08)) [
      | inl e'' ↦ simp (e, e', e'') h
      | inr e'' ↦ simp (e, e', e'') h
    ]
  ]
]

called-IsBounded : (c : Call) (s : Apbps2) → IsBounded s → IsBounded (called c s)
unfolding called push_byte reset notify size
called-IsBounded (presses intc byte) s h = push-IsBounded (u8 byte) s h
called-IsBounded (writes intc offset value) s h = write-IsBounded offset value intc s h
called-IsBounded (reads offset) s h = read-IsBounded offset s h
called-IsBounded resets s h = omega arith

calls-IsBounded : (cs : List Call) (s : Apbps2) → IsBounded s → IsBounded (calls cs s)
unfolding calls
calls-IsBounded [] s h = h
calls-IsBounded (c ∷ cs) s h = calls-IsBounded cs (called c s) (called-IsBounded c s h)

-- Whatever calls follow the construction of the port, its queue never holds more than 32 bytes.
pub construct-calls-IsBounded :
    (cs : List Call) (irq_line : ℕ) → size (calls cs (construct irq_line)).rxq ≤ 32
unfolding construct size
construct-calls-IsBounded cs irq_line = calls-IsBounded cs (construct irq_line) (omega arith)
