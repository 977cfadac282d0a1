-- ===== src/Apbuart/Stream.antt =====
-- src/peripherals/APBUART.h and console.h: what the guest reads against what was typed.
use mathlib.Core.List.{append_assoc}
use sparcv8emulator.Base.{
  ℕ, ◌≡◌, refl, ◌∙◌, sym, ap, inl, inr, Bool, true, false, if◌then◌else◌, leb, ◌==◌, Bool-cases,
  List, [], ◌∷◌, ◌++◌, arith,
}
use sparcv8emulator.Apbuart.Console.{Console, escaped, arrived, poll_stdin, hit, getc}
use sparcv8emulator.Apbuart.Ops.{Apbuart, store, accept, input_scheduled, tick_scheduled}
use sparcv8emulator.Apbuart.Fifo.{contents, IsFifo, contents-store}

-- The characters that typed bytes stand for. The flag says that Ctrl+A was the byte before.
unfoldable pub decode : Bool → List ℕ → List ℕ
decode escape [] = []
decode false (c ∷ rest) = if c == 0x01 then decode true rest else c ∷ decode false rest
decode true (c ∷ rest) = if c == 0x01 then 0x01 ∷ decode false rest else decode false rest

-- The characters that the console has yet to give.
unfoldable pub future : Console → List ℕ
future k =
    if k.has_pending
    then k.pending ∷ decode k.escape_pending k.stdin
    else decode k.escape_pending k.stdin

future-arrived :
    (c : ℕ) (rest : List ℕ) (k : Console)
    → k.has_pending ≡ false
    → future (arrived c (record k { stdin = rest })).0 ≡ decode k.escape_pending (c ∷ rest)
unfolding arrived escaped future decode
future-arrived c rest k none_pending = elim (Bool-cases k.escape_pending) [
  | inl e ↦ rw e (ground (arith, none_pending))
  | inr e ↦ rw e (ground (arith, none_pending))
]

future-poll :
    (bytes : List ℕ) (k : Console)
    → k.stdin ≡ bytes
    → k.has_pending ≡ false
    → future (poll_stdin bytes k).0 ≡ decode k.escape_pending bytes
unfolding poll_stdin future
future-poll [] k e none_pending = simp (e, none_pending) refl
future-poll (c ∷ rest) k e none_pending = future-arrived c rest k none_pending

-- A poll of the console loses no character, and says whether one waits.
pub future-hit : (k : Console) → future (hit k).0 ≡ future k
unfolding hit future decode
future-hit k = elim (Bool-cases k.has_pending) [
  | inl e ↦ simp e refl
  | inr e ↦ simp e (future-poll k.stdin k refl e)
]

arrived_waits :
    (c : ℕ) (k : Console) → k.has_pending ≡ false → (arrived c k).1 ≡ (arrived c k).0.has_pending
unfolding arrived escaped
arrived_waits c k none_pending = elim (Bool-cases k.escape_pending) [
  | inl e ↦ rw e (ground (arith, none_pending))
  | inr e ↦ rw e (ground (arith, none_pending))
]

poll_waits :
    (bytes : List ℕ) (k : Console)
    → k.has_pending ≡ false
    → (poll_stdin bytes k).1 ≡ (poll_stdin bytes k).0.has_pending
unfolding poll_stdin
poll_waits [] k none_pending = sym none_pending
poll_waits (c ∷ rest) k none_pending = arrived_waits c (record k { stdin = rest }) none_pending

pub hit_waits : (k : Console) → (hit k).1 ≡ (hit k).0.has_pending
unfolding hit
hit_waits k = elim (Bool-cases k.has_pending) [
  | inl e ↦ simp e refl
  | inr e ↦ simp e (poll_waits k.stdin k e)
]

-- All characters that the guest has yet to read: those in the buffer, then those behind it.
abbrev pub stream : Apbuart → List ℕ
stream u = contents u ++ future u.console

-- `u'` is a good state in which no character of `u` is lost, doubled or moved.
pub record Keeps (u u' : Apbuart) : Type 0 where
  pub fifo : IsFifo u'
  pub same : stream u' ≡ stream u

Keeps-trans : (u v w : Apbuart) → Keeps u v → Keeps v w → Keeps u w
Keeps-trans u v w p q = record { fifo = q.fifo; same = q.same ∙ p.same }

accept-Keeps : (u : Apbuart) → IsFifo u → u.console.has_pending ≡ true → Keeps u (accept u)
unfolding accept getc future store
accept-Keeps u v e = elim (Bool-cases (leb 8 u.len)) [
  | inl full ↦ rw full (record { fifo = v; same = refl })
  | inr room ↦
      let k = record (u.console) { has_pending = false } in
      let s = contents-store u.console.pending (record u { console = k }) v (ground arith) in
      rw room (record {
        fifo = s.0;
        same =
            ap (λ (l : List ℕ). l ++ future k) s.1
            ∙ append_assoc (contents u) (u.console.pending ∷ []) (future k)
            ∙ simp e refl;
      })
]

pub input_scheduled-Keeps : (u : Apbuart) → IsFifo u → Keeps u (input_scheduled u)
unfolding input_scheduled
input_scheduled-Keeps u v =
    let polled : Keeps u (record u { console = (hit u.console).0 }) = record {
      fifo = v;
      same = ap (λ (l : List ℕ). contents u ++ l) (future-hit u.console);
    } in
    elim (Bool-cases (hit u.console).1) [
      | inl e ↦ rw e (
          Keeps-trans u (record u { console = (hit u.console).0 })
            (accept (record u { console = (hit u.console).0 })) polled
            (accept-Keeps (record u { console = (hit u.console).0 }) v
              (sym (hit_waits u.console) ∙ e)))
      | inr e ↦ rw e polled
    ]

pub tick_scheduled-Keeps : (u : Apbuart) → IsFifo u → Keeps u (tick_scheduled u)
unfolding tick_scheduled
tick_scheduled-Keeps u v = elim (Bool-cases u.t_ints_enabled) [
  | inl e ↦ simp e (
      let w =
        input_scheduled-Keeps (record u { t_ints_enabled = true; tx_emptied_int_pending = true })
          v in
      record { fifo = w.fifo; same = w.same })
  | inr e ↦ simp e (input_scheduled-Keeps u v)
]
