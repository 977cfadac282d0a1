-- ===== src/Apbps2/Ops.antt =====
-- src/peripherals/APBPS2.h: the keyboard's queue, its answers to commands, and the registers.
use sparcv8emulator.Base.{
  ℕ, suc, ◌*◌, ◌^◌, Bool, not, if◌then◌else◌, ltb, ◌==◌, List, [], ◌∷◌, ◌++◌, bit_and, bit_or, u8,
}
use sparcv8emulator.Irqmp.Ops.{Irqmp, Outcome, done, trigger_irq}

pub data TxState : Type 0 where
  idle wait_f0 wait_ed wait_f3 : TxState

pub record Apbps2 : Type 0 where
  pub irq_line : ℕ
  pub ctrl : ℕ
  pub tx_state : TxState
  pub rxq : List ℕ

unfoldable pub construct : ℕ → Apbps2
construct irq_line = record { irq_line = irq_line; ctrl = 0; tx_state = idle; rxq = [] }

unfoldable pub reset : Apbps2 → Apbps2
reset s = record s { ctrl = 0; tx_state = idle; rxq = [] }

-- `rxq_.size()`.
unfoldable pub size : List ℕ → ℕ
size [] = 0
size (b ∷ bs) = suc (size bs)

unfoldable pub push : ℕ → Apbps2 → Apbps2
push b s = if ltb (size s.rxq) 32 then record s { rxq = s.rxq ++ (b ∷ []) } else s

unfoldable pub ack : Apbps2 → Apbps2
ack s = push 0xfa s

unfoldable pub awaiting : TxState → Apbps2 → Apbps2
awaiting t s = record s { tx_state = t }

-- The commands of one byte, and the first bytes of the others.
unfoldable pub command : ℕ → Apbps2 → Apbps2
command cmd s =
    if cmd == 0xff
    then push 0xaa (ack s)
    else if cmd == 0xf2
    then push 0x83 (push 0xab (ack s))
    else if cmd == 0xf0
    then awaiting wait_f0 (ack s)
    else if cmd == 0xed
    then awaiting wait_ed (ack s)
    else if cmd == 0xf3
    then awaiting wait_f3 (ack s)
    else if cmd == 0xee
    then push 0xee s
    else ack s

unfoldable pub respond : TxState → ℕ → Apbps2 → Apbps2
respond wait_f0 cmd s =
    if cmd == 0x00 then push 0x02 (ack (awaiting idle s)) else ack (awaiting idle s)
respond wait_ed cmd s = ack (awaiting idle s)
respond wait_f3 cmd s = ack (awaiting idle s)
respond idle cmd s = command cmd s

unfoldable pub tx_respond : ℕ → Apbps2 → Apbps2
tx_respond cmd s = respond s.tx_state cmd s

-- The bit RI of the control register.
unfoldable pub rx_interrupt : Apbps2 → Bool
rx_interrupt s = not (bit_and s.ctrl 0x4 == 0)

unfoldable pub notify : Bool → Irqmp × Apbps2 → Outcome × Apbps2
notify trigger (intc, s) = (if trigger then trigger_irq s.irq_line intc else done intc, s)

unfoldable pub push_byte : ℕ → Irqmp × Apbps2 → Outcome × Apbps2
push_byte byte (intc, s) = let s' = push (u8 byte) s in notify (rx_interrupt s') (intc, s')

-- The value read, and the port: a read of the data register takes the oldest byte.
unfoldable pub pop_byte : List ℕ → Apbps2 → ℕ × Apbps2
pop_byte [] s = (0, s)
pop_byte (b ∷ bs) s = (b, record s { rxq = bs })

unfoldable pub status : List ℕ → ℕ
status q =
    let rcnt = if ltb 31 (size q) then 31 else size q in
    bit_or (if size q == 0 then 0 else 1) (rcnt * 2 ^ 27)

unfoldable pub read : ℕ → Apbps2 → ℕ × Apbps2
read offset s =
    if bit_and offset 0x0c == 0x00
    then pop_byte s.rxq s
    else if bit_and offset 0x0c == 0x04
    then (status s.rxq, s)
    else if bit_and offset 0x0c == 0x08
    then (s.ctrl, s)
    else (0, s)

unfoldable pub write : ℕ → ℕ → Irqmp × Apbps2 → Outcome × Apbps2
write offset value (intc, s) =
    if bit_and offset 0x0c == 0x00
    then (let s' = tx_respond (bit_and value 0xff) s in notify (rx_interrupt s') (intc, s'))
    else if bit_and offset 0x0c == 0x08
    then (done intc, record s { ctrl = bit_and value 0xf })
    else (done intc, s)
