-- ===== src/Ac97/Order.antt =====
-- src/peripherals/ac97.hpp and ac97.cpp: runs of calls of the device keep its playback engine in
-- order.
use sparcv8emulator.Base.{
  ℕ, ◌%◌, ◌^◌, inl, inr, not, ◌&&◌, leb, ◌==◌, Bool-cases, Option, Option-cases, none, some, List,
  [], ◌∷◌, subst, arith,
}
use sparcv8emulator.Ac97.State.{Ac97, GuestMemory}
use sparcv8emulator.Ac97.Codec
use sparcv8emulator.Ac97.Playback
use sparcv8emulator.Ac97.Ports
use sparcv8emulator.Ac97.Config
use sparcv8emulator.Ac97.Invariant.{IsPlayable}
use sparcv8emulator.Ac97.Playable.{AllPlayable, TickPlayable, tick-IsPlayable}
use sparcv8emulator.Ac97.Written.{nam_written-IsPlayable, nabm-IsPlayable, cold-IsPlayable}
use sparcv8emulator.Ac97.Calls.{
  Call, ticks, reads8, reads16, reads32, writes, configures8, configures16, configures32, moves,
  resets, after_tick, after_read, perform, performs,
}

module _ (a : Ac97) (ok : IsPlayable a.po) where
  nam-IsPlayable : (offset value : ℕ) → IsPlayable (Codec.write_nam offset value a).po
  unfolding Codec.write_nam Codec.codec_command_begin Codec.codec_command_complete
  nam-IsPlayable offset value = elim (Bool-cases (leb 0x80 offset)) [
    | inl y ↦ simp y ok
    | inr n ↦ elim (Bool-cases (Codec.nam_valid offset)) [
      | inl y ↦ simp (n, y) (nam_written-IsPlayable (Codec.codec_command_begin a) ok offset value)
      | inr n' ↦ simp (n, n') ok
    ]
  ]

  read_nam-IsPlayable : (offset : ℕ) → IsPlayable (Codec.read_nam offset a).1.po
  unfolding Codec.read_nam Codec.codec_command_begin Codec.codec_command_complete
  read_nam-IsPlayable offset = elim (Bool-cases (leb 0x80 offset)) [
    | inl y ↦ simp y ok
    | inr n ↦ simp n ok
  ]

  unchanged-IsPlayable : (o : Option ℕ) → AllPlayable (after_read (Ports.unchanged a o))
  unfolding after_read
  unchanged-IsPlayable none = tt
  unchanged-IsPlayable (some v) = ok

  nabm32_read : (offset : ℕ) → AllPlayable (after_read (Ports.read_nabm32 offset a))
  unfolding after_read Ports.read_nabm32 Ports.read_glob_sta
  nabm32_read offset = elim (Bool-cases (offset == 0x10)) [
    | inl y ↦ simp y ok
    | inr n0 ↦ elim (Bool-cases (offset == 0x00)) [
      | inl y ↦ simp (n0, y) ok
      | inr n1 ↦ elim (Bool-cases (offset == 0x20)) [
        | inl y ↦ simp (n0, n1, y) ok
        | inr n2 ↦ elim (Bool-cases (offset == 0x2C)) [
          | inl y ↦ simp (n0, n1, n2, y) ok
          | inr n3 ↦ elim (Bool-cases (offset == 0x30)) [
            | inl y ↦ simp (n0, n1, n2, n3, y) ok
            | inr n4 ↦ simp (n0, n1, n2, n3, n4) tt
          ]
        ]
      ]
    ]
  ]

  nabm_read : (offset width : ℕ) → AllPlayable (after_read (Ports.read_nabm offset width a))
  unfolding Ports.read_nabm
  nabm_read offset width = elim (Bool-cases (width == 1)) [
    | inl y ↦ simp y (unchanged-IsPlayable (Ports.read_nabm8 offset a))
    | inr n ↦ elim (Bool-cases (width == 2)) [
      | inl y ↦ simp (n, y) (unchanged-IsPlayable (Ports.read_nabm16 offset a))
      | inr n' ↦ simp (n, n') (nabm32_read offset)
    ]
  ]

  narrowed-IsPlayable :
      (bits : ℕ) (o : Option (ℕ × Ac97))
      → AllPlayable (after_read o)
      → AllPlayable (after_read (Ports.narrowed bits o))
  unfolding after_read
  narrowed-IsPlayable bits none h = tt
  narrowed-IsPlayable bits (some (v, b)) h = h

  read32-IsPlayable : (addr : ℕ) → AllPlayable (after_read (Ports.io_read32 addr a))
  unfolding after_read Ports.io_read32
  read32-IsPlayable addr = elim (Bool-cases (Ports.in_aperture (Ports.eff_nam a) addr)) [
    | inl y ↦ simp y (read_nam-IsPlayable (Ports.register_at (Ports.eff_nam a) addr))
    | inr n ↦ elim (Bool-cases (Ports.in_aperture (Ports.eff_nabm a) addr)) [
      | inl y ↦ simp (n, y) (nabm_read (Ports.register_at (Ports.eff_nabm a) addr) 4)
      | inr n' ↦ simp (n, n') ok
    ]
  ]

  read16-IsPlayable : (addr : ℕ) → AllPlayable (after_read (Ports.io_read16 addr a))
  unfolding after_read Ports.io_read16
  read16-IsPlayable addr = elim (Bool-cases (Ports.in_aperture (Ports.eff_nam a) addr)) [
    | inl y ↦ simp y (read_nam-IsPlayable (Ports.register_at (Ports.eff_nam a) addr))
    | inr n ↦ elim (Bool-cases (Ports.in_aperture (Ports.eff_nabm a) addr)) [
      | inl y ↦
          simp (n, y)
            (let o = Ports.read_nabm (Ports.register_at (Ports.eff_nabm a) addr) 2 a in
              narrowed-IsPlayable 16 o (nabm_read (Ports.register_at (Ports.eff_nabm a) addr) 2))
      | inr n' ↦ simp (n, n') ok
    ]
  ]

  read8-IsPlayable : (addr : ℕ) → AllPlayable (after_read (Ports.io_read8 addr a))
  unfolding after_read Ports.io_read8
  read8-IsPlayable addr = elim (Bool-cases (Ports.in_aperture (Ports.eff_nabm a) addr)) [
    | inl y ↦ simp y (
        let o = Ports.read_nabm (Ports.register_at (Ports.eff_nabm a) addr) 1 a in
        narrowed-IsPlayable 8 o (nabm_read (Ports.register_at (Ports.eff_nabm a) addr) 1))
    | inr n ↦ simp n ok
  ]

  write-IsPlayable :
      (memory : GuestMemory) (width addr v : ℕ) → AllPlayable (Ports.io_write memory width addr v a)
  unfolding Ports.io_write
  write-IsPlayable memory width addr v =
      elim (Bool-cases (Ports.in_aperture (Ports.eff_nam a) addr && not (width == 1))) [
        | inl y ↦ simp y (nam-IsPlayable (Ports.register_at (Ports.eff_nam a) addr) (v % 2 ^ 16))
        | inr n ↦ elim (Bool-cases (Ports.in_aperture (Ports.eff_nabm a) addr)) [
          | inl y ↦
              simp (n, y)
                (nabm-IsPlayable memory a ok (Ports.register_at (Ports.eff_nabm a) addr) v width)
          | inr n' ↦ simp (n, n') ok
        ]
      ]

  config-IsPlayable : (off v : ℕ) → IsPlayable (Config.config_write32 off v a).po
  unfolding Config.config_write32 Config.write_bar Config.put_config32 Config.put_config8
  config-IsPlayable off v = elim (Bool-cases (off == Config.bar0)) [
    | inl y ↦ elim (Bool-cases (v == 0xFFFFFFFF)) [
      | inl all ↦ simp (y, all) ok
      | inr other ↦ simp (y, other) ok
    ]
    | inr n ↦ elim (Bool-cases (off == Config.bar1)) [
      | inl y ↦ elim (Bool-cases (v == 0xFFFFFFFF)) [
        | inl all ↦ simp (n, y, all) ok
        | inr other ↦ simp (n, y, other) ok
      ]
      | inr n' ↦ simp (n, n') ok
    ]
  ]

  after_tick-IsPlayable : (o : Option Playback.Ticked) → TickPlayable o → AllPlayable (after_tick o)
  unfolding after_tick
  after_tick-IsPlayable none h = tt
  after_tick-IsPlayable (some t) h = h

perform-IsPlayable : (c : Call) (a : Ac97) → IsPlayable a.po → AllPlayable (perform c a)
unfolding perform Config.put_config16 Config.put_config8 Config.set_phys_bases
perform-IsPlayable (ticks memory wall_clock allowed) a ok =
    after_tick-IsPlayable a ok (Playback.tick memory wall_clock allowed a)
      (tick-IsPlayable memory wall_clock allowed a ok)
perform-IsPlayable (reads8 addr) a ok = read8-IsPlayable a ok addr
perform-IsPlayable (reads16 addr) a ok = read16-IsPlayable a ok addr
perform-IsPlayable (reads32 addr) a ok = read32-IsPlayable a ok addr
perform-IsPlayable (writes memory width addr v) a ok = write-IsPlayable a ok memory width addr v
perform-IsPlayable (configures8 off v) a ok = ok
perform-IsPlayable (configures16 off v) a ok = ok
perform-IsPlayable (configures32 off v) a ok = config-IsPlayable a ok off v
perform-IsPlayable (moves nam nabm) a ok = ok
perform-IsPlayable resets a ok = cold-IsPlayable a ok

performs-IsPlayable :
    (calls : List Call) (a : Ac97) → IsPlayable a.po → AllPlayable (performs calls a)
unfolding performs
performs-IsPlayable [] a ok = ok
performs-IsPlayable (c ∷ calls) a ok = elim (Option-cases (perform c a)) [
  | inl e ↦ simp e tt
  | inr (b, e) ↦
      simp e (performs-IsPlayable calls b (subst AllPlayable e (perform-IsPlayable c a ok)))
]

new_device-IsPlayable : IsPlayable Config.new_device.po
unfolding Config.new_device Config.init_pci_config Config.config_write32 Config.put_config32
    Config.put_config8 Config.put_config16 Config.identify Codec.init_codec_cold Codec.codec_ready
new_device-IsPlayable = record { civ = omega arith; lvi = omega arith; active = λ r. cc }

-- After every sequence of ticks, reads and writes of the ports and of the configuration space, and
-- resets, unless one of them throws, the indices of the playback engine are inside the ring of 32
-- descriptors, and an engine that runs does not say that its DMA is halted.
pub new_device-performs-IsPlayable :
    (calls : List Call) → AllPlayable (performs calls Config.new_device)
new_device-performs-IsPlayable calls =
    performs-IsPlayable calls Config.new_device new_device-IsPlayable
