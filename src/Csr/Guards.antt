-- ===== src/Csr/Guards.antt =====
-- What the guards of `csr_access` admit and refuse: privilege, read-only registers, and the state
-- after a refusal or after an access that only reads.
use tiny_linux_rv.Prelude.{
  ℕ, ◌≤◌, ◌≡◌, ◌≢◌, ◌⊎◌, refl, Bool, true, false, Option, some, arith, ◌&&◌, Option-cases, inl, inr,
}
use tiny_linux_rv.Csr.Field.{csr_field_get, get-lt}
use tiny_linux_rv.Csr.Defs.{
  Csr, CsrOp, CsrAddr, csr_sstatus, CsrPtr, ptr_mstatus, csr_ptr, get_reg, set_reg, read_only,
  decode_addr, decode_addr_sound, csr_value, priv_u, priv_s, priv_m,
}
use tiny_linux_rv.Csr.Access.{
  denied, granted, shadow_time, csr_access, access_reg, read_phase, write_phase, write_reg,
  mark_written, written_value,
}

access_reg-denied :
    (a : CsrAddr) (c c' : Csr) (op : CsrOp) (value : ℕ) (read_csr write_csr : Bool) (priv : ℕ)
    → access_reg a c op value read_csr write_csr priv ≡ denied c'
    → c' ≡ c
unfolding access_reg
access_reg-denied a c c' op value read_csr write_csr priv e = ground arith

-- What a granted access went through.
pub access_reg-granted :
    (a : CsrAddr) (c c' : Csr) (op : CsrOp) (value : ℕ) (read_csr write_csr : Bool) (priv : ℕ)
    (rd : Option ℕ)
    → access_reg a c op value read_csr write_csr priv ≡ granted rd c'
    → (read_phase a c read_csr priv ≡ some rd)
      × (c' ≡ write_phase a c op value write_csr)
      × ((write_csr && read_only a) ≡ false)
unfolding access_reg
access_reg-granted a c c' op value read_csr write_csr priv rd e = ground arith

-- The section's parameters are the arguments of a call of `csr_access`.
module _ (c c' : Csr) (addr : ℕ) (op : CsrOp) (value : ℕ) (read_csr write_csr : Bool)
    (time priv : ℕ) where
  pub csr_access-granted :
      (rd : Option ℕ)
      → csr_access c addr op value read_csr write_csr time priv ≡ granted rd c'
      → (a : CsrAddr) × (decode_addr addr ≡ some a)
        × (access_reg a (shadow_time c time) op value read_csr write_csr priv ≡ granted rd c')
  unfolding csr_access
  csr_access-granted rd e = ground arith

  -- A refused access leaves every register and flag as it was, but for the copy of mtime.
  pub csr_access_denied_unchanged :
      csr_access c addr op value read_csr write_csr time priv ≡ denied c' → c' ≡ shadow_time c time
  unfolding csr_access
  csr_access_denied_unchanged e = elim (Option-cases (decode_addr addr)) [
    | inl missing ↦ ground (arith, missing)
    | inr (a, found) ↦
        ground (
          arith,
          found,
          access_reg-denied a (shadow_time c time) c' op value read_csr write_csr priv,
        )
  ]

  -- An access that only reads leaves every register and flag as it was, but for the copy of mtime.
  pub csr_access_read_unchanged :
      (rd : Option ℕ)
      → csr_access c addr op value read_csr write_csr time priv ≡ granted rd c'
      → write_csr ≡ false
      → c' ≡ shadow_time c time
  unfolding write_phase
  csr_access_read_unchanged rd e w =
      let (a, found, g) = csr_access-granted rd e in
      ground
        (arith, access_reg-granted a (shadow_time c time) c' op value read_csr write_csr priv rd g)

  privilege :
      (rd : Option ℕ)
      → csr_access c addr op value read_csr write_csr time priv ≡ granted rd c'
      → (priv ≡ priv_u) ⊎ ((priv ≡ priv_s) ⊎ (priv ≡ priv_m))
      → csr_field_get addr 8 2 ≤ priv
  unfolding csr_access
  privilege rd e p = ground (arith, get-lt addr 8 2)

get_reg-set_reg_ne :
    (p q : CsrPtr) (v : ℕ) (r : _) → p ≢ q → get_reg p (set_reg q v r) ≡ get_reg p r
unfolding get_reg set_reg
get_reg-set_reg_ne ptr_mstatus ptr_mstatus v r ne = absurd (ne refl)
get_reg-set_reg_ne _ _ v r ne = ground arith

-- By the architecture's convention, an address whose bits 11 and 10 are set is read-only.
writable_addr : (a : CsrAddr) → read_only a ≡ false → csr_field_get (csr_value a) 10 2 ≢ 3
unfolding csr_value read_only csr_field_get
writable_addr csr_sstatus e = ground arith
writable_addr _ e = ground arith

pub csr_reg-mark_written : (a : CsrAddr) (c : Csr) → (mark_written a c).csr_reg ≡ c.csr_reg
unfolding mark_written
csr_reg-mark_written csr_sstatus c = refl
csr_reg-mark_written _ c = refl

write_phase_frame :
    (a : CsrAddr) (p : CsrPtr) (c : Csr) (op : CsrOp) (value : ℕ) (write_csr : Bool)
    → p ≢ csr_ptr a
    → get_reg p (write_phase a c op value write_csr).csr_reg ≡ get_reg p c.csr_reg
unfolding write_phase write_reg
write_phase_frame a p c op value write_csr ne = ground (
  arith,
  csr_reg-mark_written a c,
  get_reg-set_reg_ne p (csr_ptr a) (written_value a c op value) c.csr_reg ne,
)

module _ (c c' : Csr) (addr : ℕ) (op : CsrOp) (value : ℕ) (read_csr write_csr : Bool)
    (time priv : ℕ) where
  -- An access in one of the modes U, S and M is granted only if the address' bits 9 and 8 admit the
  -- mode, and a write only if the address' bits 11 and 10 do not mark the CSR as read-only.
  pub csr_access_protected :
      (rd : Option ℕ)
      → csr_access c addr op value read_csr write_csr time priv ≡ granted rd c'
      → (priv ≡ priv_u) ⊎ ((priv ≡ priv_s) ⊎ (priv ≡ priv_m))
      → (csr_field_get addr 8 2 ≤ priv) × (write_csr ≡ true → csr_field_get addr 10 2 ≢ 3)
  csr_access_protected rd e p =
      let (a, found, g) = csr_access-granted c c' addr op value read_csr write_csr time priv rd e in
      let (r, s, w) =
        access_reg-granted a (shadow_time c time) c' op value read_csr write_csr priv rd g in
      let writable : write_csr ≡ true → csr_field_get addr 10 2 ≢ 3 =
        λ on. rw (← decode_addr_sound addr a found) (writable_addr a (ground arith)) in
      (privilege c c' addr op value read_csr write_csr time priv rd e p, writable)

  -- A granted write changes no register but the one that the address names, and the copy of mtime.
  pub csr_access_frame :
      (rd : Option ℕ) (a : CsrAddr) (p : CsrPtr)
      → csr_access c addr op value read_csr write_csr time priv ≡ granted rd c'
      → decode_addr addr ≡ some a
      → p ≢ csr_ptr a
      → get_reg p c'.csr_reg ≡ get_reg p (shadow_time c time).csr_reg
  csr_access_frame rd a p e found ne =
      let (b, found', g) =
        csr_access-granted c c' addr op value read_csr write_csr time priv rd e in
      let same : b ≡ a = cc in
      let (r, s, w) =
        access_reg-granted b (shadow_time c time) c' op value read_csr write_csr priv rd g in
      rw (s, same) (write_phase_frame a p (shadow_time c time) op value write_csr ne)
