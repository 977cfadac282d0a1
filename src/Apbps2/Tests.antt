-- ===== src/Apbps2/Tests.antt =====
-- Tests of the keyboard port, and its theorems at concrete inputs.
use sparcv8emulator.Base.{ℕ, ◌+◌, ◌≤◌, ◌≡◌, ◌≢◌, refl, true, false, [], ◌∷◌, arith}
use sparcv8emulator.Irqmp.Ops.{Irqmp}
use sparcv8emulator.Apbps2.Ops.{
  idle, wait_f0, Apbps2, construct, size, push, ack, command, respond, tx_respond,
}
use sparcv8emulator.Apbps2.Bound.{presses, writes, reads, calls, construct-calls-IsBounded}
use sparcv8emulator.Apbps2.Protocol.{
  typed, drain, drain-typed, Acknowledges, tx_respond-Acknowledges,
}

abbrev port : Apbps2
port = record { irq_line = 5; ctrl = 0; tx_state = idle; rxq = [] }

abbrev intc : Irqmp
intc = record {
  ilevel = 0;
  ipend = 0;
  iforce = 0;
  iclear = 0;
  mpstat = 0;
  brdcst = 0;
  errstat = 0;
  ampctrl = 0;
  piforce = λ i. 0;
  pimask = λ i. 0;
  num_cpus = 1;
  num_active_cpus = 1;
  irq_hint = λ i. 0;
  cpu_ptrs = λ i. true;
  woken = λ i. false;
}

identified : (tx_respond 0xf2 port).rxq ≡ 0xfa ∷ 0xab ∷ 0x83 ∷ []
unfolding tx_respond respond command ack push size
identified = refl

construct-calls-IsBounded_example :
    size (calls (presses intc 0x1c ∷ writes intc 0 0xff ∷ reads 0 ∷ []) (construct 5)).rxq ≤ 32
construct-calls-IsBounded_example =
    construct-calls-IsBounded (presses intc 0x1c ∷ writes intc 0 0xff ∷ reads 0 ∷ []) 5

three_keys : size (0x1c ∷ 0xf0 ∷ 0x1c ∷ []) ≤ 32
unfolding size
three_keys = omega arith

drain-typed_example :
    drain (size (0x1c ∷ 0xf0 ∷ 0x1c ∷ [])) (typed intc (0x1c ∷ 0xf0 ∷ 0x1c ∷ []) port)
    ≡ (0x1c ∷ 0xf0 ∷ 0x1c ∷ [], port)
drain-typed_example =
    drain-typed intc (0x1c ∷ 0xf0 ∷ 0x1c ∷ []) port (omega arith, (omega arith, (omega arith, tt)))
      refl three_keys

-- The echo code as an argument.
abbrev setting : Apbps2
setting = record port { tx_state = wait_f0; rxq = 0xfa ∷ [] }

room : size (0xfa ∷ []) + 3 ≤ 32
unfolding size
room = omega arith

not_idle : wait_f0 ≡ idle → ◌≢◌ {A = ℕ} 0xee 0xee
not_idle e = cc

tx_respond-Acknowledges_example : Acknowledges (0xfa ∷ []) (tx_respond 0xee setting).rxq
tx_respond-Acknowledges_example = tx_respond-Acknowledges 0xee setting room not_idle
