-- ===== src/Apbuart/Fifo.antt =====
-- src/peripherals/APBUART.h: the receive buffer is a queue of at most eight bytes.
use sparcv8emulator.Base.{
  ℕ, zero, suc, ◌+◌, ◌-◌, ◌%◌, ◌≤◌, ◌<◌, ◌≡◌, refl, ◌∙◌, ap, inl, inr, ◌⊎◌, true, false, ltb, ◌==◌,
  update, u8, List, [], ◌∷◌, ◌++◌, arith,
}
use sparcv8emulator.Apbuart.Ops.{Apbuart, read_data, store}

-- `n` entries of the ring from index `start` on.
abbrev pub window : (ℕ → ℕ) → ℕ → ℕ → List ℕ
window fifo start zero = []
window fifo start (suc n) = fifo (start % 8) ∷ window fifo (suc start) n

-- The bytes that wait, the oldest first.
abbrev pub contents : Apbuart → List ℕ
contents u = window u.fifo (u.pos + 8 - u.len) u.len

pub record InBounds (len pos : ℕ) : Type 0 where
  pub fits : len ≤ 8
  pub in_byte : pos < 256

abbrev pub IsFifo : Apbuart → Type 0
IsFifo u = InBounds u.len u.pos

window_start : (fifo : ℕ → ℕ) (n s t : ℕ) → s % 8 ≡ t % 8 → window fifo s n ≡ window fifo t n
window_start fifo zero s t e = refl
window_start fifo (suc n) s t e = rw (e, window_start fifo n (suc s) (suc t) (omega arith)) refl

window_last :
    (fifo : ℕ → ℕ) (n s : ℕ) → window fifo s (suc n) ≡ window fifo s n ++ fifo ((s + n) % 8) ∷ []
window_last fifo zero s = let e : s + 0 ≡ s = omega arith in rw e refl
window_last fifo (suc n) s =
    let e : s + suc n ≡ suc s + n = omega arith in
    rw e (ap (λ (rest : List ℕ). fifo (s % 8) ∷ rest) (window_last fifo n (suc s)))

window-update :
    (fifo : ℕ → ℕ) (k v n s : ℕ)
    → k < 8
    → n < 8
    → (s + n) % 8 ≡ k
    → window (update fifo k v) s n ≡ window fifo s n
window-update fifo k v zero s kl nl e = refl
window-update fifo k v (suc n) s kl nl e =
    let other : (s % 8 == k) ≡ false = ground arith in
    rw (other, window-update fifo k v n (suc s) kl (omega arith) (omega arith)) refl

-- Receiving a byte while fewer than eight wait puts it at the end of the queue.
pub contents-store :
    (c : ℕ) (u : Apbuart)
    → IsFifo u
    → u.len < 8
    → IsFifo (store c u) × (contents (store c u) ≡ contents u ++ c ∷ [])
unfolding store
contents-store c u v lt =
    let longer : u8 (u.len + 1) ≡ suc u.len = omega arith in
    let last : (u8 (u.pos + 1) + 8 - suc u.len + u.len) % 8 ≡ u.pos % 8 = omega arith in
    let here : (u.pos % 8 == u.pos % 8) ≡ true = ground arith in
    let before : window (update u.fifo (u.pos % 8) c) (u8 (u.pos + 1) + 8 - suc u.len) u.len
        ≡ window u.fifo (u.pos + 8 - u.len) u.len =
      window-update u.fifo (u.pos % 8) c u.len (u8 (u.pos + 1) + 8 - suc u.len) (omega arith) lt
        last
      ∙ window_start u.fifo u.len (u8 (u.pos + 1) + 8 - suc u.len) (u.pos + 8 - u.len)
          (omega arith) in
    (
      record { fits = omega arith; in_byte = omega arith },
      (rw longer (
          window_last (update u.fifo (u.pos % 8) c) u.len (u8 (u.pos + 1) + 8 - suc u.len)
          ∙ rw (last, here, before) refl)),
    )

ℕ-cases : (n : ℕ) → (n ≡ 0) ⊎ ((m : ℕ) × (n ≡ suc m))
ℕ-cases zero = inl refl
ℕ-cases (suc m) = inr (m, refl)

-- Reading the data register while a byte waits takes the oldest one.
pub read_data-contents :
    (u : Apbuart)
    → IsFifo u
    → ltb 0 u.len ≡ true
    → IsFifo (read_data u).0
      × ((read_data u).1 ∷ contents (read_data u).0 ≡ contents u)
      × ((read_data u).0.console ≡ u.console)
unfolding read_data
read_data-contents u v waiting = elim (ℕ-cases u.len) [
  | inl e ↦ absurd (ground (arith, e))
  | inr (n, e) ↦
      let less : suc n - 1 ≡ n = omega arith in
      let start : u.pos + 8 - n ≡ suc (u.pos + 8 - suc n) = omega arith in
      let waiting' : ltb 0 (suc n) ≡ true = ground arith in
      rw (e, waiting')
        (record { fits = omega arith; in_byte = v.in_byte }, rw (less, start) refl, refl)
]

pub read_data_empty : (u : Apbuart) → ltb 0 u.len ≡ false → read_data u ≡ (u, 0)
unfolding read_data
read_data_empty u e = rw e refl
