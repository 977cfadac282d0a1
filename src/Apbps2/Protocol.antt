-- ===== src/Apbps2/Protocol.antt =====
-- src/peripherals/APBPS2.h: bytes come out in the order in which they went in, and the guest's
-- commands are acknowledged.
use sparcv8emulator.Base.{
  ℕ, zero, suc, ◌+◌, ◌≤◌, ◌<◌, ◌≡◌, ◌≢◌, refl, ◌∙◌, sym, ap, Bool, true, false, if◌then◌else◌, ltb,
  ◌==◌, ==_iff, List, [], ◌∷◌, ◌++◌, u8, arith,
}
use sparcv8emulator.Irqmp.Ops.{Irqmp}
use sparcv8emulator.Apbps2.Ops.{
  TxState, idle, wait_f0, wait_ed, wait_f3, Apbps2, size, push, ack, awaiting, command, respond,
  tx_respond, notify, push_byte, pop_byte, read,
}
use sparcv8emulator.Apbps2.Bound.{size-snoc}

push_room : (b : ℕ) (s : Apbps2) → size s.rxq < 32 → push b s ≡ record s { rxq = s.rxq ++ (b ∷ []) }
unfolding push
push_room b s lt = let room : ltb (size s.rxq) 32 ≡ true = ground (arith, lt) in rw room refl

snoc-++ : (xs ys : List ℕ) (b : ℕ) → (xs ++ (b ∷ [])) ++ ys ≡ xs ++ (b ∷ ys)
snoc-++ [] ys b = refl
snoc-++ (x ∷ xs) ys b = ap (λ (t : List ℕ). x ∷ t) (snoc-++ xs ys b)

++-nil : (xs : List ℕ) → xs ++ [] ≡ xs
++-nil [] = refl
++-nil (x ∷ xs) = ap (λ (t : List ℕ). x ∷ t) (++-nil xs)

-- The display's keyboard injects bytes.
unfoldable pub typed : Irqmp → List ℕ → Apbps2 → Apbps2
typed intc [] s = s
typed intc (b ∷ bs) s = typed intc bs (push_byte b (intc, s)).1

-- The guest reads the data register `n` times.
unfoldable pub drain : ℕ → Apbps2 → List ℕ × Apbps2
drain zero s = ([], s)
drain (suc n) s = let (b, s') = read 0 s in let (bs, s'') = drain n s' in (b ∷ bs, s'')

abbrev pub AreBytes : List ℕ → Type 0
AreBytes [] = Unit
AreBytes (b ∷ bs) = (b < 256) × AreBytes bs

typed_lem :
    (intc : Irqmp) (bs : List ℕ) (s : Apbps2)
    → AreBytes bs
    → size s.rxq + size bs ≤ 32
    → typed intc bs s ≡ record s { rxq = s.rxq ++ bs }
unfolding typed push_byte notify size
typed_lem intc [] s bytes fits = rw (++-nil s.rxq) refl
typed_lem intc (b ∷ bs) s (lt, bytes) fits =
    let byte : u8 b ≡ b = omega arith in
    let longer = size-snoc s.rxq b in
    rw (byte, push_room b s (omega arith))
      (typed_lem intc bs (record s { rxq = s.rxq ++ (b ∷ []) }) bytes (omega (arith, longer, fits))
        ∙ rw (snoc-++ s.rxq bs b) refl)

drain_lem :
    (bs rest : List ℕ) (s : Apbps2)
    → s.rxq ≡ bs ++ rest
    → drain (size bs) s ≡ (bs, record s { rxq = rest })
unfolding drain read pop_byte size
drain_lem [] rest s e = rw (← e) refl
drain_lem (b ∷ bs) rest s e = simp (e, drain_lem bs rest (record s { rxq = bs ++ rest }) refl) refl

-- Bytes typed into an empty queue that has room for them are read from the data register in the
-- order in which they were typed, and leave the port as it was.
pub drain-typed :
    (intc : Irqmp) (bs : List ℕ) (s : Apbps2)
    → AreBytes bs
    → s.rxq ≡ []
    → size bs ≤ 32
    → drain (size bs) (typed intc bs s) ≡ (bs, s)
unfolding size
drain-typed intc bs s bytes e fits =
    let none_held : size s.rxq ≡ 0 = ap size e in
    let whole : s.rxq ++ bs ≡ bs ++ [] = rw (e, ++-nil bs) refl in
    let emptied : record s { rxq = [] } ≡ s = ap (λ (q : List ℕ). record s { rxq = q }) (sym e) in
    rw (typed_lem intc bs s bytes (omega (arith, none_held, fits))) (
      drain_lem bs [] (record s { rxq = s.rxq ++ bs }) whole ∙ ap (λ (t : Apbps2). (bs, t)) emptied)

-- The answer to a byte begins with an acknowledgement, and has at most two bytes after it.
abbrev pub Acknowledges : List ℕ → List ℕ → Type 0
Acknowledges before now = (rest : List ℕ) × (now ≡ before ++ (0xfa ∷ rest)) × (size rest ≤ 2)

one_byte : (s : Apbps2) → size s.rxq + 3 ≤ 32 → Acknowledges s.rxq (ack s).rxq
unfolding ack size
one_byte s room = ([], ap (λ (t : Apbps2). t.rxq) (push_room 0xfa s (omega arith)), omega arith)

ack_lem : (s : Apbps2) → size s.rxq + 3 ≤ 32 → ack s ≡ record s { rxq = s.rxq ++ (0xfa ∷ []) }
unfolding ack
ack_lem s room = push_room 0xfa s (omega arith)

two_bytes : (b : ℕ) (s : Apbps2) → size s.rxq + 3 ≤ 32 → Acknowledges s.rxq (push b (ack s)).rxq
unfolding size
two_bytes b s room =
    let longer = size-snoc s.rxq 0xfa in
    (
      b ∷ [],
      rw
          (
            ack_lem s room,
            push_room b (record s { rxq = s.rxq ++ (0xfa ∷ []) }) (omega (arith, longer)),
          )
          (snoc-++ s.rxq (b ∷ []) 0xfa),
      omega arith,
    )

three_bytes :
    (b c : ℕ) (s : Apbps2) → size s.rxq + 3 ≤ 32 → Acknowledges s.rxq (push c (push b (ack s))).rxq
unfolding size
three_bytes b c s room =
    let q = s.rxq ++ (0xfa ∷ []) in
    let longer = size-snoc s.rxq 0xfa in
    let longest = size-snoc q b in
    (
      b ∷ c ∷ [],
      rw
          (
            ack_lem s room,
            push_room b (record s { rxq = q }) (omega (arith, longer)),
            push_room c (record s { rxq = q ++ (b ∷ []) }) (omega (arith, longer, longest)),
          )
          (snoc-++ q (c ∷ []) b ∙ snoc-++ s.rxq (b ∷ c ∷ []) 0xfa),
      omega arith,
    )

if_acknowledged :
    (b : Bool) (before : List ℕ) (s t : Apbps2)
    → (b ≡ true → Acknowledges before s.rxq)
    → (b ≡ false → Acknowledges before t.rxq)
    → Acknowledges before (if b then s else t).rxq
if_acknowledged true before s t holds fails = holds refl
if_acknowledged false before s t holds fails = fails refl

command-Acknowledges :
    (cmd : ℕ) (s : Apbps2)
    → size s.rxq + 3 ≤ 32
    → cmd ≢ 0xee
    → Acknowledges s.rxq (command cmd s).rxq
unfolding command awaiting
command-Acknowledges cmd s room no_echo =
    let one = one_byte s room in
    let b = s.rxq in
    if_acknowledged (cmd == 0xff) b _ _ (λ e. two_bytes 0xaa s room)
      (λ e.
        if_acknowledged (cmd == 0xf2) b _ _ (λ e. three_bytes 0xab 0x83 s room)
          (λ e.
            if_acknowledged (cmd == 0xf0) b _ _ (λ e. one)
              (λ e.
                if_acknowledged (cmd == 0xed) b _ _ (λ e. one)
                  (λ e.
                    if_acknowledged (cmd == 0xf3) b _ _ (λ e. one)
                      (λ e.
                        if_acknowledged (cmd == 0xee) b _ _
                          (λ e. absurd (no_echo ((==_iff cmd 0xee).0 e))) (λ e. one))))))

respond-Acknowledges :
    (t : TxState) (cmd : ℕ) (s : Apbps2)
    → size s.rxq + 3 ≤ 32
    → (t ≡ idle → cmd ≢ 0xee)
    → Acknowledges s.rxq (respond t cmd s).rxq
unfolding respond awaiting
respond-Acknowledges idle cmd s room no_echo = command-Acknowledges cmd s room (no_echo refl)
respond-Acknowledges wait_ed cmd s room no_echo = one_byte (awaiting idle s) room
respond-Acknowledges wait_f3 cmd s room no_echo = one_byte (awaiting idle s) room
respond-Acknowledges wait_f0 cmd s room no_echo =
    if_acknowledged (cmd == 0x00) s.rxq _ _ (λ e. two_bytes 0x02 (awaiting idle s) room)
      (λ e. one_byte (awaiting idle s) room)

-- Every byte that the guest sends while the queue has room for three is acknowledged, whether it
-- is a command or the argument of one, except an echo command, which is not an argument.
pub tx_respond-Acknowledges :
    (cmd : ℕ) (s : Apbps2)
    → size s.rxq + 3 ≤ 32
    → (s.tx_state ≡ idle → cmd ≢ 0xee)
    → Acknowledges s.rxq (tx_respond cmd s).rxq
unfolding tx_respond
tx_respond-Acknowledges cmd s room no_echo = respond-Acknowledges s.tx_state cmd s room no_echo
