-- ===== src/Mmu/Rights.antt =====
-- src/sparcv8/MMU.cpp: the table of rights that a TLB hit tests against the full check.
use sparcv8emulator.Base.{ℕ, ◌<◌, ◌≡◌, Bool, true, false, ◌==◌, testbit, bit_and-mod, ◌>>>◌, arith}
use sparcv8emulator.Mmu.Walk.{entry_type}
use sparcv8emulator.Mmu.Perms.{
  Intent, load, store, execute, get_access_type, acc_of, check_acc, fault_type, perm_ok_table,
  perm_ok,
}

-- `b` equals `c` for the eight values of the access field.
same_rights :
    (intent : Intent) (supervisor : Bool) (acc : ℕ)
    → acc < 8
    → perm_ok acc (get_access_type intent supervisor)
      ≡ (check_acc (get_access_type intent supervisor) acc 0 == 0)
unfolding perm_ok perm_ok_table testbit check_acc get_access_type
same_rights load true acc lt = ground arith
same_rights load false acc lt = ground arith
same_rights store true acc lt = ground arith
same_rights store false acc lt = ground arith
same_rights execute true acc lt = ground arith
same_rights execute false acc lt = ground arith

acc_lt : (pte : ℕ) → acc_of pte < 8
acc_lt pte = omega (arith, bit_and-mod 3 (pte >>> 2))

-- On a valid page table entry the table and the full check grant the same accesses.
pub perm_ok-fault_type :
    (pte : ℕ) (intent : Intent) (supervisor : Bool) (level : ℕ)
    → entry_type pte ≡ 2
    → perm_ok (acc_of pte) (get_access_type intent supervisor)
      ≡ (fault_type pte (get_access_type intent supervisor) level == 0)
unfolding fault_type
perm_ok-fault_type pte intent supervisor level e =
    rw e (same_rights intent supervisor (acc_of pte) (acc_lt pte))
