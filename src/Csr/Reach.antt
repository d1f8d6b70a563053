-- ===== src/Csr/Reach.antt =====
-- Runs of the operations on the CSRs: any accesses, traps, returns and updates of
-- emulator/src/cpu/csr.c, in any order, from the reset of `csr_init` in M-mode.
use tiny_linux_rv.Prelude.{ℕ, ◌≡◌, ◌⊎◌, inr, refl, Bool, false, arith}
use tiny_linux_rv.Csr.Defs.{Csr, CsrOp, priv_u, priv_s, priv_m}
use tiny_linux_rv.Csr.Access.{csr_init, csr_access}
use tiny_linux_rv.Csr.Trap.{trap_enter, trap_exit_mret, trap_exit_sret}
use tiny_linux_rv.Csr.Interrupt.{csr_begin_update, csr_end_update}
use tiny_linux_rv.Csr.Legal.{IsLegal}
use tiny_linux_rv.Csr.Warl.{state_after, csr_access-IsLegal, csr_init-IsLegal}
use tiny_linux_rv.Csr.Delegation.{trap_enter-IsLegal, trap_enter-mode, trap_exit-IsLegal}
use tiny_linux_rv.Csr.Masking.{csr_update-IsLegal}

-- The CSRs with the privilege mode that the CPU keeps beside them.
pub data CsrRun : Csr → ℕ → Type 0 where
  reset : CsrRun csr_init priv_m
  access :
      {c : Csr} {priv : ℕ}
      → CsrRun c priv
      → (addr : ℕ) (op : CsrOp) (value : ℕ) (read_csr write_csr : Bool) (time : ℕ)
      → CsrRun (state_after (csr_access c addr op value read_csr write_csr time priv)) priv
  enter :
      {c : Csr} {priv : ℕ}
      → CsrRun c priv
      → (cause tval pc : ℕ)
      → CsrRun (trap_enter c cause tval pc priv).csr (trap_enter c cause tval pc priv).priv
  mret :
      {c : Csr} {priv : ℕ} → CsrRun c priv → CsrRun (trap_exit_mret c).csr (trap_exit_mret c).priv
  sret :
      {c : Csr} {priv : ℕ} → CsrRun c priv → CsrRun (trap_exit_sret c).csr (trap_exit_sret c).priv
  begin :
      {c : Csr} {priv : ℕ}
      → CsrRun c priv
      → (meip msip mtip seip : Bool) → CsrRun (csr_begin_update c meip msip mtip seip) priv
  finish :
      {c : Csr} {priv : ℕ}
      → CsrRun c priv
      → (retired : Bool) → CsrRun (csr_end_update c retired) priv

abbrev pub IsMode : ℕ → Type 0
IsMode priv = (priv ≡ priv_u) ⊎ ((priv ≡ priv_s) ⊎ (priv ≡ priv_m))

-- In every run the privilege mode is one of U, S and M, and the registers hold only what their
-- restricted fields may hold.
pub CsrRun-IsLegal : {c : Csr} {priv : ℕ} → CsrRun c priv → IsLegal c.csr_reg × IsMode priv
CsrRun-IsLegal reset = (csr_init-IsLegal, inr (inr refl))
CsrRun-IsLegal (access {c} {priv} r addr op value read_csr write_csr time) =
    let (l, m) = CsrRun-IsLegal r in
    (csr_access-IsLegal c addr op value read_csr write_csr time priv l, m)
CsrRun-IsLegal (enter {c} {priv} r cause tval pc) =
    let (l, m) = CsrRun-IsLegal r in
    (trap_enter-IsLegal c cause tval pc priv m l, inr (trap_enter-mode c cause tval pc priv))
CsrRun-IsLegal (mret {c} r) =
    let (l, m) = CsrRun-IsLegal r in
    let (lm, ls, ne, le, le') = trap_exit-IsLegal c l in (lm, ground arith)
CsrRun-IsLegal (sret {c} r) =
    let (l, m) = CsrRun-IsLegal r in
    let (lm, ls, ne, le, le') = trap_exit-IsLegal c l in (ls, ground arith)
CsrRun-IsLegal (begin {c} r meip msip mtip seip) =
    let (l, m) = CsrRun-IsLegal r in ((csr_update-IsLegal c meip msip mtip seip false l).0, m)
CsrRun-IsLegal (finish {c} r retired) =
    let (l, m) = CsrRun-IsLegal r in ((csr_update-IsLegal c false false false false retired l).1, m)
