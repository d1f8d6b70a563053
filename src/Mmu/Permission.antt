-- ===== src/Mmu/Permission.antt =====
-- The permission check of emulator/src/cpu/mmu.c against the rules of the privileged architecture.
use tiny_linux_rv.Prelude.{
  ℕ, ◌≡◌, bit_and, Bool, true, not, ◌&&◌, ◌||◌, ◌==◌, nonzero, arith, if◌then◌else◌,
}
use tiny_linux_rv.Word.{◌>>>◌}
use tiny_linux_rv.Csr.Defs.{priv_u, priv_s}
use tiny_linux_rv.Mmu.Defs.{
  PteFlag, AccessMode, mmu_read, mmu_write, mmu_amo, mmu_execute, is_execute, stores, xwr,
  pte_permission_check, mode_refused,
}

-- U-mode reaches only user pages; S-mode reaches them only with SUM, and never to execute.
abbrev pub privilege_rule : PteFlag → ℕ → AccessMode → ℕ → Bool
privilege_rule flag sstatus mode priv =
    if priv == priv_u
    then flag.u
    else if priv == priv_s
    then not flag.u || (nonzero (bit_and (sstatus >>> 18) 1) && not (is_execute mode))
    else true

-- A fetch needs X, a load R, or X with MXR, and a store or an atomic needs W.
abbrev pub access_rule : PteFlag → ℕ → AccessMode → Bool
access_rule flag sstatus mmu_execute = flag.x
access_rule flag sstatus mmu_read = flag.r || (nonzero (bit_and (sstatus >>> 19) 1) && flag.x)
access_rule flag sstatus _ = flag.w

-- A must be set, and D for a store or an atomic.
abbrev pub accessed_rule : PteFlag → AccessMode → Bool
accessed_rule flag mode = flag.a && (not (stores mode) || flag.d)

-- The encodings of a leaf that are not reserved.
abbrev pub leaf_flags : PteFlag → Bool
leaf_flags flag = (not flag.w || flag.r) && (flag.r || flag.x)

refused_lem :
    (f : PteFlag) (sstatus : ℕ) (mode : AccessMode)
    → leaf_flags f ≡ true
    → mode_refused (xwr f) (bit_and (sstatus >>> 19) 1) mode ≡ not (access_rule f sstatus mode)
unfolding mode_refused
refused_lem f s mmu_read h = ground (arith, h)
refused_lem f s mmu_write h = ground (arith, h)
refused_lem f s mmu_amo h = ground (arith, h)
refused_lem f s mmu_execute h = ground (arith, h)

-- On a leaf entry without a reserved encoding, the check allows an access exactly where the three
-- rules do: U-mode reaches only user pages, and S-mode reaches those only for data and with SUM; a
-- fetch needs X, a load R (or X with MXR), a store or an atomic W; A is set, and D for a store.
pub pte_permission_check_lem :
    (f : PteFlag) (sstatus : ℕ) (mode : AccessMode) (priv : ℕ)
    → leaf_flags f ≡ true
    → pte_permission_check f sstatus mode priv
      ≡ (privilege_rule f sstatus mode priv && (access_rule f sstatus mode && accessed_rule f mode))
unfolding pte_permission_check
pte_permission_check_lem f s mode priv h = ground (arith, refused_lem f s mode h)
