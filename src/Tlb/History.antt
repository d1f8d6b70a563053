-- ===== src/Tlb/History.antt =====
-- Sequences of lookups of the TLB of emulator/src/cpu/tlb.c.
use tiny_linux_rv.Prelude.{ℕ, ◌≡◌, refl, ap₂, Option, List, [], ◌∷◌}
use tiny_linux_rv.Mmu.Defs.{PteFlag, AccessMode, Translation, mmu_translation, effective_priv}
use tiny_linux_rv.Tlb.Defs.{Tlb, tlb_lookup, tlb_void}
use tiny_linux_rv.Tlb.Page.{Coherent}
use tiny_linux_rv.Tlb.Coherence.{tlb_lookup_refines, tlb_void-Coherent}

-- A lookup: the address, mstatus, the kind of access and the effective mode.
pub record Request : Type 0 where
  pub va : ℕ
  pub mstatus : ℕ
  pub mode : AccessMode
  pub priv : ℕ

abbrev pub AllEffective : List Request → Type 0
AllEffective [] = Unit
AllEffective (q ∷ qs) = (effective_priv q.mstatus q.mode q.priv ≡ q.priv) × AllEffective qs

unfoldable pub lookups : Tlb → (ℕ → Option ℕ) → ℕ → PteFlag → List Request → List Translation
lookups t read satp flag [] = []
lookups t read satp flag (q ∷ qs) =
    let done = tlb_lookup t read q.va satp q.mstatus q.mode q.priv flag in
    done.1 ∷ lookups done.0 read satp flag qs

unfoldable pub translations : (ℕ → Option ℕ) → ℕ → PteFlag → List Request → List Translation
translations read satp flag [] = []
translations read satp flag (q ∷ qs) =
    (mmu_translation read q.va satp q.mstatus q.mode q.priv flag).0 ∷ translations read satp flag qs

lookups-Coherent :
    (t : Tlb) (read : ℕ → Option ℕ) (satp : ℕ) (flag : PteFlag) (qs : List Request)
    → Coherent read satp t
    → AllEffective qs
    → lookups t read satp flag qs ≡ translations read satp flag qs
unfolding lookups translations
lookups-Coherent t read satp flag [] c h = refl
lookups-Coherent t read satp flag (q ∷ qs) c h =
    let done = tlb_lookup_refines t read q.va satp q.mstatus q.mode q.priv flag c h.0 in
    ap₂ (λ x l. x ∷ l) done.0
      (lookups-Coherent (tlb_lookup t read q.va satp q.mstatus q.mode q.priv flag).0 read satp flag
        qs done.1 h.1)

-- From an empty TLB on, any sequence of lookups with one satp, over tables that do not change, gives
-- what translating each address afresh gives, faults included. Each mode is one to which MPRV has
-- already been applied.
pub lookups_refine :
    (t : Tlb) (read : ℕ → Option ℕ) (satp : ℕ) (flag : PteFlag) (qs : List Request)
    → AllEffective qs
    → lookups (tlb_void t) read satp flag qs ≡ translations read satp flag qs
lookups_refine t read satp flag qs h =
    lookups-Coherent (tlb_void t) read satp flag qs (tlb_void-Coherent read satp t) h
