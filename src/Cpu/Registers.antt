-- ===== src/Cpu/Registers.antt =====
-- src/sparcv8/CPU.h: the register file as thirty-two registers of the current window.
use sparcv8emulator.Base.{
  ℕ, zero, suc, ◌+◌, ◌*◌, ◌/◌, ◌%◌, ◌<◌, ◌≡◌, refl, ◌∙◌, sym, ap, Bool, true, false, if◌then◌else◌,
  ◌==◌, Option, some, bit_and, bit_and-mod, update, ◌>>>◌, arith,
}
use sparcv8emulator.Cpu.State.{Cpu, globalreg8, read_reg, write_reg}
use sparcv8emulator.Cpu.Windows.{InWindow, next_base-window, register_index}

-- Where a register is kept.
data Place : Type 0 where
  global_at : (i : ℕ) → Place
  local_at : (i : ℕ) → Place
  out_at : (i : ℕ) → Place

-- Register `k` of bank `b` in window `w`.
abbrev bank_place : ℕ → ℕ → ℕ → Place
bank_place w zero k = global_at k
bank_place w (suc zero) k = out_at (w * 8 + k)
bank_place w (suc (suc zero)) k = local_at (w * 8 + k)
bank_place w (suc (suc (suc b))) k = out_at ((w + 1) % 8 * 8 + k)

abbrev fetch : Place → Cpu → ℕ
fetch (global_at i) s = s.globals i
fetch (local_at i) s = s.locals i
fetch (out_at i) s = s.outs i

abbrev put : Place → ℕ → Cpu → Cpu
put (global_at i) v s = record s { globals = update (update s.globals i v) 0 0 }
put (local_at i) v s = record s { locals = update s.locals i v }
put (out_at i) v s = record s { outs = update s.outs i v }

abbrev same : Place → Place → Bool
same (global_at i) (global_at k) = i == k
same (local_at i) (local_at k) = i == k
same (out_at i) (out_at k) = i == k
same _ _ = false

abbrev is_g0 : Place → Bool
is_g0 (global_at i) = i == 0
is_g0 _ = false

fetch-put :
    (p q : Place) (v : ℕ) (s : Cpu)
    → s.globals 0 ≡ 0
    → fetch p (put q v s) ≡ (if same p q then if is_g0 q then 0 else v else fetch p s)
fetch-put (global_at zero) (global_at k) v s z = ground (arith, z)
fetch-put (global_at (suc i)) (global_at k) v s z = ground arith
fetch-put (global_at i) (local_at k) v s z = refl
fetch-put (global_at i) (out_at k) v s z = refl
fetch-put (local_at i) (global_at k) v s z = refl
fetch-put (local_at i) (local_at k) v s z = refl
fetch-put (local_at i) (out_at k) v s z = refl
fetch-put (out_at i) (global_at k) v s z = refl
fetch-put (out_at i) (local_at k) v s z = refl
fetch-put (out_at i) (out_at k) v s z = refl

-- Different registers of a window are kept in different places.
same-bank_place :
    (w b c k l : ℕ)
    → w < 8
    → b < 4
    → c < 4
    → k < 8
    → l < 8
    → same (bank_place w b k) (bank_place w c l) ≡ (b * 8 + k == c * 8 + l)
same-bank_place w zero zero k l wl bl cl kl ll = ground arith
same-bank_place w zero (suc zero) k l wl bl cl kl ll = ground arith
same-bank_place w zero (suc (suc zero)) k l wl bl cl kl ll = ground arith
same-bank_place w zero (suc (suc (suc c))) k l wl bl cl kl ll = ground arith
same-bank_place w (suc zero) zero k l wl bl cl kl ll = ground arith
same-bank_place w (suc zero) (suc zero) k l wl bl cl kl ll = ground arith
same-bank_place w (suc zero) (suc (suc zero)) k l wl bl cl kl ll = ground arith
same-bank_place w (suc zero) (suc (suc (suc c))) k l wl bl cl kl ll = ground arith
same-bank_place w (suc (suc zero)) zero k l wl bl cl kl ll = ground arith
same-bank_place w (suc (suc zero)) (suc zero) k l wl bl cl kl ll = ground arith
same-bank_place w (suc (suc zero)) (suc (suc zero)) k l wl bl cl kl ll = ground arith
same-bank_place w (suc (suc zero)) (suc (suc (suc c))) k l wl bl cl kl ll = ground arith
same-bank_place w (suc (suc (suc b))) zero k l wl bl cl kl ll = ground arith
same-bank_place w (suc (suc (suc b))) (suc zero) k l wl bl cl kl ll = ground arith
same-bank_place w (suc (suc (suc b))) (suc (suc zero)) k l wl bl cl kl ll = ground arith
same-bank_place w (suc (suc (suc b))) (suc (suc (suc c))) k l wl bl cl kl ll = ground arith

is_g0-bank_place : (w b k : ℕ) → k < 8 → is_g0 (bank_place w b k) ≡ (b * 8 + k == 0)
is_g0-bank_place w zero k kl = ground arith
is_g0-bank_place w (suc zero) k kl = ground arith
is_g0-bank_place w (suc (suc zero)) k kl = ground arith
is_g0-bank_place w (suc (suc (suc b))) k kl = ground arith

module _ (w : ℕ) (s : Cpu) (inside : InWindow w s) where
  read_reg-fetch :
      (b j : ℕ) → j < 32 → j / 8 ≡ b → read_reg j s ≡ some (fetch (bank_place w b (j % 8)) s)
  unfolding read_reg
  read_reg-fetch zero j lt e =
      let plain : (j == globalreg8) ≡ false = ground arith in
      let low : bit_and j 7 ≡ j % 8 = omega (arith, bit_and-mod 3 j) in simp (plain, e, low) refl
  read_reg-fetch (suc zero) j lt e =
      let plain : (j == globalreg8) ≡ false = ground arith in
      simp (plain, e, inside.cached, register_index w j) refl
  read_reg-fetch (suc (suc zero)) j lt e =
      let plain : (j == globalreg8) ≡ false = ground arith in
      simp (plain, e, inside.cached, register_index w j) refl
  read_reg-fetch (suc (suc (suc b))) j lt e =
      let plain : (j == globalreg8) ≡ false = ground arith in
      let third : j / 8 ≡ 3 = omega arith in
      simp
        (
          plain,
          third,
          inside.cached,
          next_base-window w inside.small,
          register_index ((w + 1) % 8) j,
        )
        refl

  write_reg-put :
      (b v j : ℕ) → j < 32 → j / 8 ≡ b → write_reg v j s ≡ put (bank_place w b (j % 8)) v s
  unfolding write_reg
  write_reg-put zero v j lt e =
      let plain : (j == globalreg8) ≡ false = ground arith in
      let bank : bit_and (j >>> 3) 3 ≡ 0 = omega (arith, bit_and-mod 2 (j >>> 3)) in
      let low : bit_and j 7 ≡ j % 8 = omega (arith, bit_and-mod 3 j) in simp (plain, bank, low) refl
  write_reg-put (suc zero) v j lt e =
      let plain : (j == globalreg8) ≡ false = ground arith in
      let bank : bit_and (j >>> 3) 3 ≡ 1 = omega (arith, bit_and-mod 2 (j >>> 3)) in
      simp (plain, bank, inside.cached, register_index w j) refl
  write_reg-put (suc (suc zero)) v j lt e =
      let plain : (j == globalreg8) ≡ false = ground arith in
      let bank : bit_and (j >>> 3) 3 ≡ 2 = omega (arith, bit_and-mod 2 (j >>> 3)) in
      simp (plain, bank, inside.cached, register_index w j) refl
  write_reg-put (suc (suc (suc b))) v j lt e =
      let plain : (j == globalreg8) ≡ false = ground arith in
      let bank : bit_and (j >>> 3) 3 ≡ 3 = omega (arith, bit_and-mod 2 (j >>> 3)) in
      simp
        (
          plain,
          bank,
          inside.cached,
          next_base-window w inside.small,
          register_index ((w + 1) % 8) j,
        )
        refl

some_if : (b : Bool) (x y : ℕ) → some (if b then x else y) ≡ (if b then some x else some y)
some_if true x y = refl
some_if false x y = refl

put-cwp_base : (p : Place) (v : ℕ) (s : Cpu) → (put p v s).cwp_base ≡ s.cwp_base
put-cwp_base (global_at i) v s = refl
put-cwp_base (local_at i) v s = refl
put-cwp_base (out_at i) v s = refl

-- A register reads back the value written to it, register 0 reads 0, and every other register of
-- the window keeps its value.
pub read_reg-write_reg :
    (w j r v : ℕ) (s : Cpu)
    → InWindow w s
    → s.globals 0 ≡ 0
    → j < 32
    → r < 32
    → read_reg j (write_reg v r s)
      ≡ (if j == r then some (if r == 0 then 0 else v) else read_reg j s)
read_reg-write_reg w j r v s inside z jl rl =
    let p = bank_place w (j / 8) (j % 8) in
    let q = bank_place w (r / 8) (r % 8) in
    let t = put q v s in
    let inside' : InWindow w t = record {
      small = inside.small;
      cached = put-cwp_base q v s ∙ inside.cached;
    } in
    let whole : (i : ℕ) → i / 8 * 8 + i % 8 ≡ i = λ i. omega arith in
    let e : same p q ≡ (j == r) =
      same-bank_place w (j / 8) (r / 8) (j % 8) (r % 8) inside.small (omega arith) (omega arith)
        (omega arith) (omega arith)
      ∙ rw (whole j, whole r) refl in
    let g : is_g0 q ≡ (r == 0) =
      is_g0-bank_place w (r / 8) (r % 8) (omega arith) ∙ rw (whole r) refl in
    let value : fetch p t ≡ (if j == r then if r == 0 then 0 else v else fetch p s) =
      rw (← e, ← g) (fetch-put p q v s z) in
    ap (read_reg j) (write_reg-put w s inside (r / 8) v r rl refl)
    ∙ read_reg-fetch w t inside' (j / 8) j jl refl
    ∙ ap some value
    ∙ some_if (j == r) (if r == 0 then 0 else v) (fetch p s)
    ∙ ap (λ (o : Option ℕ). if j == r then some (if r == 0 then 0 else v) else o)
        (sym (read_reg-fetch w s inside (j / 8) j jl refl))
