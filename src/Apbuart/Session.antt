-- ===== src/Apbuart/Session.antt =====
-- src/peripherals/APBUART.h: the calls that the bus, the guest and the device scheduler make.
use mathlib.Core.List.{append_assoc}
use sparcv8emulator.Base.{
  ℕ, ◌≡◌, refl, ◌∙◌, ap, inl, inr, not, ◌&&◌, if◌then◌else◌, ltb, ◌==◌, Bool-cases, Option, none,
  some, List, [], ◌∷◌, ◌++◌,
}
use sparcv8emulator.Apbuart.Console.{Console, putc}
use sparcv8emulator.Apbuart.Ops.{
  Apbuart, read_data, read_status, write, check_irq, input_scheduled, tick_scheduled,
}
use sparcv8emulator.Apbuart.Fifo.{contents, IsFifo, read_data-contents, read_data_empty}
use sparcv8emulator.Apbuart.Stream.{
  future, stream, Keeps, input_scheduled-Keeps, tick_scheduled-Keeps,
}

pub data Call : Type 0 where
  data_read : Call
  status_read : Call
  register_write : (offset value : ℕ) → Call
  irq_check : Call
  device_tick : Call
  device_input : Call

-- An offset that `write` refuses leaves the device as it was.
unfoldable pub unless_refused : Option Apbuart → Apbuart → Apbuart
unless_refused none u = u
unless_refused (some u') u = u'

-- The state after a call, and the character that it gave to the guest. A read of register 0 while
-- nothing waits gives none.
unfoldable pub call : Call → Apbuart → Apbuart × List ℕ
call data_read u = ((read_data u).0, if ltb 0 u.len then (read_data u).1 ∷ [] else [])
call status_read u = ((read_status u).0, [])
call (register_write offset value) u = (unless_refused (write offset value u) u, [])
call irq_check u = ((check_irq u).0, [])
call device_tick u = (tick_scheduled u, [])
call device_input u = (input_scheduled u, [])

unfoldable pub session : List Call → Apbuart → Apbuart × List ℕ
session [] u = (u, [])
session (e ∷ rest) u =
    let (u', got) = call e u in let (u'', more) = session rest u' in (u'', got ++ more)

-- What the guest got and what it has yet to read are the stream of before.
pub record Delivers (u : Apbuart) (r : Apbuart × List ℕ) : Type 0 where
  pub fifo : IsFifo (r.0)
  pub same : r.1 ++ stream (r.0) ≡ stream u

Keeps-Delivers : (u u' : Apbuart) → Keeps u u' → Delivers u (u', [])
Keeps-Delivers u u' k = record { fifo = k.fifo; same = k.same }

data_read-Delivers : (u : Apbuart) → IsFifo u → Delivers u (call data_read u)
unfolding call
data_read-Delivers u v = elim (Bool-cases (ltb 0 u.len)) [
  | inl e ↦
      let r = read_data-contents u v e in
      simp e (record {
        fifo = r.0;
        same =
            ap (λ (l : List ℕ). l ++ future (read_data u).0.console) r.1
            ∙ ap (λ (k : Console). contents u ++ future k) r.2;
      })
  | inr e ↦ simp (e, read_data_empty u e) (record { fifo = v; same = refl })
]

write-Delivers :
    (offset value : ℕ) (u : Apbuart) → IsFifo u → Delivers u (call (register_write offset value) u)
unfolding call write putc unless_refused future
write-Delivers offset value u v = elim (Bool-cases (offset == 0x0)) [
  | inl e ↦ simp e (record { fifo = v; same = refl })
  | inr e ↦ elim (Bool-cases (offset == 0x4)) [
    | inl f ↦ simp (e, f) (record { fifo = v; same = refl })
    | inr f ↦ elim (Bool-cases (offset == 0x8)) [
      | inl g ↦ simp (e, f, g) (record { fifo = v; same = refl })
      | inr g ↦ elim (Bool-cases (offset == 0xc)) [
        | inl h ↦ simp (e, f, g, h) (record { fifo = v; same = refl })
        | inr h ↦ simp (e, f, g, h) (record { fifo = v; same = refl })
      ]
    ]
  ]
]

check_irq-Keeps : (u : Apbuart) → IsFifo u → Keeps u (check_irq u).0
unfolding check_irq
check_irq-Keeps u v = elim (Bool-cases (u.r_ints_enabled && not (u.len == 0))) [
  | inl e ↦ simp e (record { fifo = v; same = refl })
  | inr e ↦ elim (Bool-cases (u.t_ints_enabled && u.tx_emptied_int_pending)) [
    | inl f ↦ simp (e, f) (record { fifo = v; same = refl })
    | inr f ↦ simp (e, f) (record { fifo = v; same = refl })
  ]
]

call-Delivers : (e : Call) (u : Apbuart) → IsFifo u → Delivers u (call e u)
unfolding call read_status
call-Delivers data_read u v = data_read-Delivers u v
call-Delivers status_read u v = record { fifo = v; same = refl }
call-Delivers (register_write offset value) u v = write-Delivers offset value u v
call-Delivers irq_check u v = Keeps-Delivers u (check_irq u).0 (check_irq-Keeps u v)
call-Delivers device_tick u v = Keeps-Delivers u (tick_scheduled u) (tick_scheduled-Keeps u v)
call-Delivers device_input u v = Keeps-Delivers u (input_scheduled u) (input_scheduled-Keeps u v)

-- Over any sequence of calls, the characters that the guest reads, followed by those still
-- waiting, are those that were typed, each once and in their order, an overrun included.
pub session-Delivers : (es : List Call) (u : Apbuart) → IsFifo u → Delivers u (session es u)
unfolding session
session-Delivers [] u v = record { fifo = v; same = refl }
session-Delivers (e ∷ rest) u v =
    let c = call-Delivers e u v in
    let d = session-Delivers rest (call e u).0 c.fifo in
    record {
      fifo = d.fifo;
      same =
          append_assoc (call e u).1 (session rest (call e u).0).1
            (stream (session rest (call e u).0).0)
          ∙ ap (λ (l : List ℕ). (call e u).1 ++ l) d.same
          ∙ c.same;
    }
