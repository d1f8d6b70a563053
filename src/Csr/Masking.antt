-- ===== src/Csr/Masking.antt =====
-- Which interrupts are taken: `check_interrupt`, the scan in `interrupt_pending_and_enabled`, and
-- the updates around an instruction, of emulator/src/cpu/csr.c.
use native.Mathlib.Nat.{zero-add}
use tiny_linux_rv.Prelude.{
  ℕ, ◌<◌, ◌≡◌, ◌⊎◌, inl, inr, refl, Bool, true, false, arith, ◌==◌, ltb, ◌&&◌, ◌||◌, if◌then◌else◌,
  nonzero, Bool-cases, none, some, List, [], ◌∷◌, to_num,
}
use tiny_linux_rv.Csr.Field.{csr_field_get, csr_field_set, get-lt, test_bit-get, set_bit}
use tiny_linux_rv.Csr.Legal.{IsLegal}
use tiny_linux_rv.Bits.{test_bit}
use tiny_linux_rv.Csr.Masks.{
  mie_pos, sie_pos, int_meip, int_msip, int_mtip, int_seip, int_ssip, int_stip,
}
use tiny_linux_rv.Csr.Defs.{Csr, priv_s, priv_m}
use tiny_linux_rv.Csr.Trap.{trap_enter}
use tiny_linux_rv.Csr.Return.{push_m-mie, push_s-sie}
use tiny_linux_rv.Csr.Interrupt.{
  check_interrupt, first_interrupt, interrupt_order, interrupt_pending_and_enabled,
  csr_begin_update, csr_end_update,
}

-- An interrupt that is pending and enabled in the mode. One that is delegated goes to S-mode, and is masked there
-- by SIE; any other goes to M-mode, and is masked there by MIE. No interrupt goes to a mode below the present one.
abbrev pub Ready : Csr → ℕ → ℕ → Type 0
Ready c priv id =
    (test_bit c.csr_reg.mip id ≡ true)
    × (test_bit c.csr_reg.mie id ≡ true)
    × ((test_bit c.csr_reg.mideleg id ≡ true)
          × ((priv < priv_s) ⊎ (priv ≡ priv_s) × (test_bit c.csr_reg.mstatus sie_pos ≡ true))
        ⊎ (test_bit c.csr_reg.mideleg id ≡ false)
          × ((priv < priv_m) ⊎ (priv ≡ priv_m) × (test_bit c.csr_reg.mstatus mie_pos ≡ true)))

-- No interrupt of the list is ready.
abbrev pub NoneFires : Csr → ℕ → List ℕ → Type 0
NoneFires c priv [] = Unit {0}
NoneFires c priv (id ∷ ids) = (Ready c priv id → ⊥) × NoneFires c priv ids

-- The interrupt is ready, and none before it in the list is.
abbrev pub FiresFirst : Csr → ℕ → ℕ → List ℕ → Type 0
FiresFirst c priv i [] = ⊥
FiresFirst c priv i (id ∷ ids) =
    ((i ≡ id) × Ready c priv id) ⊎ ((Ready c priv id → ⊥) × FiresFirst c priv i ids)

-- A field of one bit, as a condition.
pub low_bit : (r p : ℕ) → nonzero (csr_field_get r p 1) ≡ test_bit r p
unfolding test_bit
low_bit r p = ground (arith, test_bit-get r p 1 0, get-lt r p 1, zero-add p)

-- `check_interrupt` over bits.
check_bits :
    (c : Csr) (priv id : ℕ)
    → check_interrupt c priv id ≡ (
        test_bit c.csr_reg.mip id
        && (test_bit c.csr_reg.mie id
            && (if test_bit c.csr_reg.mideleg id
                then ltb priv priv_s || priv == priv_s && test_bit c.csr_reg.mstatus sie_pos
                else ltb priv priv_m || priv == priv_m && test_bit c.csr_reg.mstatus mie_pos)))
unfolding check_interrupt
check_bits c priv id = ground (
  arith,
  low_bit c.csr_reg.mip id,
  low_bit c.csr_reg.mie id,
  low_bit c.csr_reg.mideleg id,
  low_bit c.csr_reg.mstatus mie_pos,
  low_bit c.csr_reg.mstatus sie_pos,
)

check-Ready : (c : Csr) (priv id : ℕ) → check_interrupt c priv id ≡ true → Ready c priv id
check-Ready c priv id e = ground (arith, check_bits c priv id)

Ready-check : (c : Csr) (priv id : ℕ) → Ready c priv id → check_interrupt c priv id ≡ true
Ready-check c priv id e = ground (arith, check_bits c priv id)

not-Ready : (c : Csr) (priv id : ℕ) → check_interrupt c priv id ≡ false → Ready c priv id → ⊥
not-Ready c priv id f r = ground (arith, Ready-check c priv id r)

first_none :
    (c : Csr) (priv : ℕ) (ids : List ℕ) → first_interrupt c priv ids ≡ none → NoneFires c priv ids
unfolding first_interrupt
first_none c priv [] e = tt
first_none c priv (id ∷ ids) e = elim (Bool-cases (check_interrupt c priv id)) [
  | inl t ↦ absurd (ground (arith, t))
  | inr f ↦ (not-Ready c priv id f, first_none c priv ids (ground (arith, f)))
]

none_first :
    (c : Csr) (priv : ℕ) (ids : List ℕ) → NoneFires c priv ids → first_interrupt c priv ids ≡ none
unfolding first_interrupt
none_first c priv [] h = refl
none_first c priv (id ∷ ids) (n, h) = elim (Bool-cases (check_interrupt c priv id)) [
  | inl t ↦ absurd (n (check-Ready c priv id t))
  | inr f ↦ rw f (none_first c priv ids h)
]

first_some :
    (c : Csr) (priv i : ℕ) (ids : List ℕ)
    → first_interrupt c priv ids ≡ some i
    → FiresFirst c priv i ids
unfolding first_interrupt
first_some c priv i [] e = cc
first_some c priv i (id ∷ ids) e = elim (Bool-cases (check_interrupt c priv id)) [
  | inl t ↦ inl (ground arith, check-Ready c priv id t)
  | inr f ↦ inr (not-Ready c priv id f, first_some c priv i ids (ground arith))
]

-- The scan takes the first interrupt in the order MEIP, MSIP, MTIP, SEIP, SSIP, STIP that is ready: its bits in
-- mip and mie are set, and the mode it goes to, which is S if mideleg delegates it and M if not, is above the
-- present mode, or is the present mode and has its enable bit SIE or MIE set. It takes none exactly if none of
-- the six is ready.
pub interrupt_pending_and_enabled_first :
    (c : Csr) (priv : ℕ)
    → ((i : ℕ)
        → interrupt_pending_and_enabled c priv ≡ some i
        → FiresFirst c priv i
            (int_meip ∷ int_msip ∷ int_mtip ∷ int_seip ∷ int_ssip ∷ int_stip ∷ []))
      × (interrupt_pending_and_enabled c priv ≡ none
          → NoneFires c priv (int_meip ∷ int_msip ∷ int_mtip ∷ int_seip ∷ int_ssip ∷ int_stip ∷ []))
      × (NoneFires c priv (int_meip ∷ int_msip ∷ int_mtip ∷ int_seip ∷ int_ssip ∷ int_stip ∷ [])
          → interrupt_pending_and_enabled c priv ≡ none)
unfolding interrupt_pending_and_enabled
interrupt_pending_and_enabled_first c priv = (
  λ i e. first_some c priv i interrupt_order e,
  λ e. first_none c priv interrupt_order e,
  λ h. none_first c priv interrupt_order h,
)

-- In M-mode with MIE clear, no interrupt is ready.
masked : (c : Csr) (id : ℕ) → test_bit c.csr_reg.mstatus mie_pos ≡ false → Ready c priv_m id → ⊥
masked c id h r = ground arith

-- In S-mode with SIE clear, an interrupt that is ready is not delegated.
Ready-s :
    (c : Csr) (id : ℕ)
    → csr_field_get c.csr_reg.mstatus sie_pos 1 ≡ 0
    → Ready c priv_s id
    → csr_field_get c.csr_reg.mideleg id 1 ≡ 0
Ready-s c id h r = ground (arith, low_bit c.csr_reg.mideleg id, low_bit c.csr_reg.mstatus sie_pos)

fires-Ready : (c : Csr) (priv i : ℕ) (ids : List ℕ) → FiresFirst c priv i ids → Ready c priv i
fires-Ready c priv i [] h = absurd h
fires-Ready c priv i (id ∷ ids) (inl (e, t)) = rw e t
fires-Ready c priv i (id ∷ ids) (inr (f, h)) = fires-Ready c priv i ids h

masked_all :
    (c : Csr) (ids : List ℕ)
    → csr_field_get c.csr_reg.mstatus mie_pos 1 ≡ 0
    → NoneFires c priv_m ids
masked_all c [] h = tt
masked_all c (id ∷ ids) h =
    (masked c id (ground (arith, low_bit c.csr_reg.mstatus mie_pos)), masked_all c ids h)

module _ (c : Csr) (cause tval pc priv : ℕ) where
  trap_m :
      (trap_enter c cause tval pc priv).priv ≡ priv_m
      → csr_field_get (trap_enter c cause tval pc priv).csr.csr_reg.mstatus mie_pos 1 ≡ 0
  unfolding trap_enter
  trap_m e = ground (arith, push_m-mie c.csr_reg.mstatus priv)

  trap_s :
      (trap_enter c cause tval pc priv).priv ≡ priv_s
      → (csr_field_get (trap_enter c cause tval pc priv).csr.csr_reg.mstatus sie_pos 1 ≡ 0)
        × ((trap_enter c cause tval pc priv).csr.csr_reg.mideleg ≡ c.csr_reg.mideleg)
  unfolding trap_enter
  trap_s e = ground (arith, push_s-sie c.csr_reg.mstatus priv)

-- Right after a trap into M-mode no interrupt is taken. Right after a trap into S-mode only an
-- interrupt that is not delegated to S-mode is taken.
pub trap_enter_masks_interrupts :
    (c : Csr) (cause tval pc priv : ℕ)
    → ((trap_enter c cause tval pc priv).priv ≡ priv_m
        → interrupt_pending_and_enabled (trap_enter c cause tval pc priv).csr priv_m ≡ none)
      × ((i : ℕ)
          → (trap_enter c cause tval pc priv).priv ≡ priv_s
          → interrupt_pending_and_enabled (trap_enter c cause tval pc priv).csr priv_s ≡ some i
          → csr_field_get c.csr_reg.mideleg i 1 ≡ 0)
unfolding interrupt_pending_and_enabled
trap_enter_masks_interrupts c cause tval pc priv = (
  λ m. none_first (trap_enter c cause tval pc priv).csr priv_m interrupt_order (
      masked_all (trap_enter c cause tval pc priv).csr interrupt_order
        (trap_m c cause tval pc priv m)),
  λ i s e.
      let (off, same) = trap_s c cause tval pc priv s in
      let j = (trap_enter c cause tval pc priv).csr in
      rw same at (
        Ready-s j i off
          (fires-Ready j priv_s i interrupt_order (first_some j priv_s i interrupt_order e))),
)

-- Before an instruction, the four interrupt lines replace the bits MEIP, MSIP, MTIP and SEIP of mip,
-- whatever they held, and every other bit stays.
pub csr_begin_update_mip :
    (c : Csr) (meip msip mtip seip : Bool) (i : ℕ)
    → i < 64
    → test_bit (csr_begin_update c meip msip mtip seip).csr_reg.mip i ≡ (
        if i == int_seip
        then seip
        else if i == int_mtip
        then mtip
        else if i == int_msip
        then msip
        else if i == int_meip
        then meip
        else test_bit c.csr_reg.mip i)
unfolding csr_begin_update
csr_begin_update_mip c meip msip mtip seip i h =
    let m = csr_field_set c.csr_reg.mip int_meip 1 (to_num meip) in
    let m' = csr_field_set m int_msip 1 (to_num msip) in
    let m'' = csr_field_set m' int_mtip 1 (to_num mtip) in
    rw (
      set_bit m'' int_seip seip i (omega arith) h,
      set_bit m' int_mtip mtip i (omega arith) h,
      set_bit m int_msip msip i (omega arith) h,
      set_bit c.csr_reg.mip int_meip meip i (omega arith) h,
    )

-- The updates keep the registers legal.
pub csr_update-IsLegal :
    (c : Csr) (meip msip mtip seip retired : Bool)
    → IsLegal c.csr_reg
    → IsLegal (csr_begin_update c meip msip mtip seip).csr_reg
      × IsLegal (csr_end_update c retired).csr_reg
unfolding csr_begin_update csr_end_update
csr_update-IsLegal c meip msip mtip seip retired l = ground arith
