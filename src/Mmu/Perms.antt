-- ===== src/Mmu/Perms.antt =====
-- src/sparcv8/MMU.h and MMU.cpp: access rights and the fault registers.
use sparcv8emulator.Base.{
  ℕ, ◌*◌, ◌^◌, Bool, true, false, not, ◌&&◌, ◌||◌, if◌then◌else◌, ◌==◌, bit_and, bit_or, testbit,
  ◌>>>◌,
}
use sparcv8emulator.Mmu.Walk.{entry_type}

pub data Intent : Type 0 where
  load : Intent
  store : Intent
  execute : Intent

pub record Faults : Type 0 where
  pub fault_status_reg : ℕ
  pub fault_address_reg : ℕ

unfoldable pub get_access_type : Intent → Bool → ℕ
get_access_type load supervisor = if supervisor then 1 else 0
get_access_type store supervisor = if supervisor then 5 else 4
get_access_type execute supervisor = if supervisor then 3 else 2

abbrev pub acc_of : ℕ → ℕ
acc_of pte = bit_and (pte >>> 2) 7

unfoldable pub make_fsr : ℕ → ℕ → ℕ → Bool → ℕ
make_fsr level at ft fav =
    bit_or (bit_or (bit_or (bit_and level 3 * 2 ^ 8) (bit_and at 7 * 2 ^ 5)) (bit_and ft 7 * 2 ^ 2))
      (if fav then 2 else 0)

-- `FT = 2` for the access rights of the first test, then `FT = 3` for those of the second.
abbrev pub denied : Bool → Bool → ℕ → ℕ
denied protection privilege ft = if privilege then 3 else if protection then 2 else ft

-- The access control table, over the fault `ft` that stands so far.
unfoldable pub check_acc : ℕ → ℕ → ℕ → ℕ
check_acc at acc ft =
    let supervisor_only = acc == 6 || acc == 7 in
    if at == 0
    then denied (acc == 4) supervisor_only ft
    else if at == 1
    then denied (acc == 4) false ft
    else if at == 2
    then denied (acc == 0 || acc == 1 || acc == 5) supervisor_only ft
    else if at == 3
    then denied (acc == 0 || acc == 1 || acc == 5) false ft
    else if at == 4
    then denied (acc == 0 || acc == 2 || acc == 4 || acc == 5) supervisor_only ft
    else if at == 5
    then denied (acc == 0 || acc == 2 || acc == 4 || acc == 6) false ft
    else if at == 6
    then denied (acc == 0 || acc == 1 || acc == 2 || acc == 4 || acc == 5) supervisor_only ft
    else if at == 7
    then denied (acc == 0 || acc == 1 || acc == 2 || acc == 4 || acc == 5 || acc == 6) false ft
    else ft

-- The fault type that `check_perms` returns.
unfoldable pub fault_type : ℕ → ℕ → ℕ → ℕ
fault_type pte at level =
    let et = entry_type pte in
    if et == 0
    then 1
    else check_acc at (acc_of pte) (if (et == 1 && level == 3) || et == 3 then 4 else 0)

unfoldable pub check_perms : ℕ → ℕ → Intent → Bool → ℕ → Bool → Faults → Faults × ℕ
check_perms vaddr pte rw supervisor level report faults =
    let at = get_access_type rw supervisor in
    let ft = fault_type pte at level in
    (
      (if not (ft == 0) && report
          then record { fault_status_reg = make_fsr level at ft true; fault_address_reg = vaddr }
          else faults),
      ft,
    )

-- `perm_ok_table`.
unfoldable pub perm_ok_table : ℕ → ℕ
perm_ok_table acc =
    if acc == 0
    then 0x03
    else if acc == 1
    then 0x33
    else if acc == 2
    then 0x0F
    else if acc == 3
    then 0xFF
    else if acc == 4
    then 0x0C
    else if acc == 5
    then 0x23
    else if acc == 6
    then 0x0A
    else 0xAA

unfoldable pub perm_ok : ℕ → ℕ → Bool
perm_ok acc at = testbit (perm_ok_table acc) at
