-- ===== src/Ac97/Written.antt =====
-- src/peripherals/ac97.cpp: every write and read keeps the playback engine in order.
use sparcv8emulator.Base.{
  ℕ, ◌<◌, inl, inr, not, ◌&&◌, ◌||◌, ◌==◌, Bool-cases, bit_and, testbit, testbit-zero, not32, arith,
}
use sparcv8emulator.Ac97.State.{Engine, Ac97, GuestMemory}
use sparcv8emulator.Ac97.Codec
use sparcv8emulator.Ac97.Playback
use sparcv8emulator.Ac97.Control
use sparcv8emulator.Ac97.Invariant
use sparcv8emulator.Ac97.Invariant.{IsPlayable}
use sparcv8emulator.Ac97.Playable.{AllPlayable, bound-IsPlayable}

module _ (a : Ac97) (ok : IsPlayable a.po) where
  warm-IsPlayable : IsPlayable (Control.warm_reset a).po
  unfolding Control.warm_reset Codec.init_codec_warm Codec.codec_ready
  warm-IsPlayable = record { civ = ok.civ; lvi = ok.lvi; active = λ r. testbit-zero 0 }

  pub cold-IsPlayable : IsPlayable (Control.cold_reset a).po
  unfolding Control.cold_reset Control.cleared_engine
  cold-IsPlayable = record { civ = omega arith; lvi = ok.lvi; active = λ r. cc }

  pub nam_written-IsPlayable : (offset value : ℕ) → IsPlayable (Codec.nam_written offset value a).po
  unfolding Codec.nam_written Codec.init_codec_warm Codec.codec_ready Codec.handle_0x26_power
      Codec.handle_0x2a_ext_audio_status
  nam_written-IsPlayable offset value = elim (Bool-cases (offset == 0x00)) [
    | inl e ↦ simp e ok
    | inr n ↦ elim (Bool-cases (offset == 0x26)) [
      | inl e ↦ simp (n, e) ok
      | inr n' ↦ elim (Bool-cases (offset == 0x28)) [
        | inl e ↦ simp (n, n', e) ok
        | inr n'' ↦ elim (Bool-cases (offset == 0x2A)) [
          | inl e ↦ simp (n, n', n'', e) ok
          | inr m ↦
              elim (Bool-cases
                (offset == 0x02 || offset == 0x04 || offset == 0x18 || offset == 0x1A)) [
                  | inl e ↦ simp (n, n', n'', m, e) ok
                  | inr m' ↦ simp (n, n', n'', m, m') ok
                ]
        ]
      ]
    ]
  ]

  start-IsPlayable : (memory : GuestMemory) → AllPlayable (Control.start_engine memory a)
  unfolding Control.start_engine
  start-IsPlayable memory = elim (Bool-cases (a.po.running)) [
    | inl e ↦ simp e ok
    | inr n0 ↦ elim (Bool-cases (a.bdbar_playback == 0 || not (memory.has_bank a.bdbar_playback))) [
      | inl e ↦ simp (n0, e) (Invariant.refused_engine-IsPlayable a.po ok)
      | inr n1 ↦
          simp (n0, n1)
            (bound-IsPlayable (Playback.read_descriptor memory a) _
              (λ d. Invariant.started_engine-IsPlayable a.po ok d))
    ]
  ]

  controlled : (control : ℕ) → IsPlayable (record (a.po) { control = control })
  controlled control = record { civ = ok.civ; lvi = ok.lvi; active = ok.active }

  indexed : (lvi : ℕ) → lvi < 32 → IsPlayable (record (a.po) { lvi = lvi })
  indexed lvi lt = record { civ = ok.civ; lvi = lt; active = ok.active }

  cleared-IsPlayable : (mask : ℕ) → IsPlayable (Control.clear_po_sr mask a).po
  unfolding Control.clear_po_sr
  cleared-IsPlayable mask = record {
    civ = ok.civ;
    lvi = ok.lvi;
    active = λ r. Invariant.clear_stays a.po.status (not32 mask) (ok.active r);
  }

module _ (memory : GuestMemory) (a : Ac97) (ok : IsPlayable a.po) where
  po_cr-IsPlayable : (value : ℕ) → AllPlayable (Control.write_po_cr memory value a)
  unfolding Control.write_po_cr
  po_cr-IsPlayable value =
      let control = bit_and (bit_and value 0x1F) (not32 2) in
      let e : Engine = record (a.po) { control = control } in
      let e_ok : IsPlayable e = controlled a ok control in
      elim (Bool-cases (testbit (bit_and value 0x1F) 1)) [
        | inl y ↦ simp y (Invariant.cleared_engine-IsPlayable e e_ok)
        | inr n0 ↦ elim (Bool-cases (testbit (bit_and value 0x1F) 0)) [
          | inl y ↦ simp (n0, y) (start-IsPlayable (Playback.with_engine e a) e_ok memory)
          | inr n1 ↦ simp (n0, n1) (Invariant.stopped_engine-IsPlayable e e_ok)
        ]
      ]

  nabm8-IsPlayable : (offset word : ℕ) → AllPlayable (Control.write_nabm8 memory offset word a)
  unfolding Control.write_nabm8 Control.write_po_lvi
  nabm8-IsPlayable offset word =
      let value = bit_and word 0xFF in
      let lvi = bit_and value 0x1F in
      let po : Engine = record (a.po) { lvi = lvi } in
      let po_ok : IsPlayable po = indexed a ok lvi (Invariant.five_bits value) in
      elim (Bool-cases (offset == 0x16)) [
        | inl e ↦ simp e (cleared-IsPlayable a ok (bit_and value 0x1E))
        | inr n0 ↦ elim (Bool-cases (offset == 0x17 || offset == 0x07 || offset == 0x27)) [
          | inl e ↦ simp (n0, e) ok
          | inr n1 ↦ elim (Bool-cases (offset == 0x06)) [
            | inl e ↦ simp (n0, n1, e) ok
            | inr n2 ↦ elim (Bool-cases (offset == 0x26)) [
              | inl e ↦ simp (n0, n1, n2, e) ok
              | inr n3 ↦ elim (Bool-cases (offset == 0x0B)) [
                | inl e ↦ simp (n0, n1, n2, n3, e) ok
                | inr n4 ↦ elim (Bool-cases (offset == 0x1B)) [
                  | inl e ↦ simp (n0, n1, n2, n3, n4, e) (po_cr-IsPlayable value)
                  | inr n5 ↦ elim (Bool-cases (offset == 0x2B)) [
                    | inl e ↦ simp (n0, n1, n2, n3, n4, n5, e) ok
                    | inr n6 ↦
                        elim (Bool-cases (offset == 0x14 || offset == 0x04 || offset == 0x24)) [
                          | inl e ↦ simp (n0, n1, n2, n3, n4, n5, n6, e) ok
                          | inr n7 ↦ elim (Bool-cases (offset == 0x05)) [
                            | inl e ↦ simp (n0, n1, n2, n3, n4, n5, n6, n7, e) ok
                            | inr n8 ↦ elim (Bool-cases (offset == 0x15)) [
                              | inl e ↦
                                  simp (n0, n1, n2, n3, n4, n5, n6, n7, n8, e)
                                    (Invariant.resumed_engine-IsPlayable po po_ok)
                              | inr n9 ↦ elim (Bool-cases (offset == 0x25)) [
                                | inl e ↦ simp (n0, n1, n2, n3, n4, n5, n6, n7, n8, n9, e) ok
                                | inr n10 ↦ simp (n0, n1, n2, n3, n4, n5, n6, n7, n8, n9, n10) tt
                              ]
                            ]
                          ]
                        ]
                  ]
                ]
              ]
            ]
          ]
        ]
      ]

  nabm16-IsPlayable : (offset word : ℕ) → IsPlayable (Control.write_nabm16 offset word a).po
  unfolding Control.write_nabm16
  nabm16-IsPlayable offset word = elim (Bool-cases (offset == 0x16)) [
    | inl e ↦ simp e (cleared-IsPlayable a ok (bit_and word 0x1E))
    | inr n ↦ simp n ok
  ]

  cold_if-IsPlayable :
      (old value : ℕ) (b : Ac97)
      → IsPlayable b.po
      → IsPlayable (Control.cold_if_rises old value b).po
  unfolding Control.cold_if_rises
  cold_if-IsPlayable old value b b_ok = elim (Bool-cases (not (testbit old 1) && testbit value 1)) [
    | inl e ↦ simp e (cold-IsPlayable b b_ok)
    | inr n ↦ simp n b_ok
  ]

  warm_if-IsPlayable :
      (old value : ℕ) (b : Ac97)
      → IsPlayable b.po
      → IsPlayable (Control.warm_if_rises old value b).po
  unfolding Control.warm_if_rises
  warm_if-IsPlayable old value b b_ok = elim (Bool-cases (not (testbit old 2) && testbit value 2)) [
    | inl e ↦ simp e (warm-IsPlayable b b_ok)
    | inr n ↦ simp n b_ok
  ]

  glob_cnt-IsPlayable : (value : ℕ) → IsPlayable (Control.write_glob_cnt value a).po
  unfolding Control.write_glob_cnt
  glob_cnt-IsPlayable value =
      let b : Ac97 = record a { glob_cnt = value } in
      warm_if-IsPlayable a.glob_cnt value (Control.cold_if_rises a.glob_cnt value b)
        (cold_if-IsPlayable a.glob_cnt value b ok)

  nabm32-IsPlayable : (offset value : ℕ) → AllPlayable (Control.write_nabm32 offset value a)
  unfolding Control.write_nabm32
  nabm32-IsPlayable offset value = elim (Bool-cases (offset == 0x10)) [
    | inl e ↦ simp e ok
    | inr n0 ↦ elim (Bool-cases (offset == 0x00)) [
      | inl e ↦ simp (n0, e) ok
      | inr n1 ↦ elim (Bool-cases (offset == 0x20)) [
        | inl e ↦ simp (n0, n1, e) ok
        | inr n2 ↦ elim (Bool-cases (offset == 0x2C)) [
          | inl e ↦ simp (n0, n1, n2, e) (glob_cnt-IsPlayable value)
          | inr n3 ↦ elim (Bool-cases (offset == 0x30)) [
            | inl e ↦ simp (n0, n1, n2, n3, e) ok
            | inr n4 ↦ simp (n0, n1, n2, n3, n4) tt
          ]
        ]
      ]
    ]
  ]

  pub nabm-IsPlayable :
      (offset value width : ℕ) → AllPlayable (Control.write_nabm memory offset value width a)
  unfolding Control.write_nabm
  nabm-IsPlayable offset value width = elim (Bool-cases (width == 1)) [
    | inl e ↦ simp e (nabm8-IsPlayable offset value)
    | inr n0 ↦ elim (Bool-cases (width == 2)) [
      | inl e ↦ simp (n0, e) (nabm16-IsPlayable offset value)
      | inr n1 ↦ simp (n0, n1) (nabm32-IsPlayable offset value)
    ]
  ]
