-- ===== src/Syscon/Reboot.antt =====
-- The commands of emulator/src/device/syscon.c and what is left of a reboot after the reset.
use tiny_linux_rv.Prelude.{
  ℕ, ◌+◌, ◌^◌, ◌≤◌, ◌≡◌, ◌⊎◌, ◌↔◌, true, false, some, List, [], ◌∷◌, arith, refl, ◌∙◌,
}
use tiny_linux_rv.Word.{u32, sub64}
use tiny_linux_rv.Syscon.Defs.{
  Syscon, syscon_init, syscon_reset, syscon_write, syscon_read, syscon_reboot_requested,
  syscon_poweroff_requested, reset_cause_reboot,
}

-- From a state where nothing is requested, one write asks for a reboot exactly if it stores the
-- command 2 in four bytes at the base address, for power-off exactly if it stores 1 there, and it
-- succeeds exactly if it asks for one of the two.
pub syscon_write_commands :
    (s : Syscon) (addr size value : ℕ)
    → (s.reboot ≡ false) × (s.poweroff ≡ false)
    → (syscon_reboot_requested (syscon_write s addr size value).0 ≡ true
        ↔ ((size ≡ 4) × (sub64 addr s.base ≡ 0) × (u32 value ≡ 2)))
      × (syscon_poweroff_requested (syscon_write s addr size value).0 ≡ true
          ↔ ((size ≡ 4) × (sub64 addr s.base ≡ 0) × (u32 value ≡ 1)))
      × ((syscon_write s addr size value).1 ≡ true ↔ (
          (syscon_reboot_requested (syscon_write s addr size value).0 ≡ true)
          ⊎ (syscon_poweroff_requested (syscon_write s addr size value).0 ≡ true)))
unfolding syscon_write syscon_reboot_requested syscon_poweroff_requested
syscon_write_commands s addr size value h = ground arith

-- The writes that software makes, one after the other.
unfoldable pub writes : Syscon → List (ℕ × ℕ × ℕ) → Syscon
writes s [] = s
writes s ((addr, size, value) ∷ ws) = writes (syscon_write s addr size value).0 ws

-- A reboot is requested only after the cause has been set to it.
abbrev Recorded : Syscon → Type 0
Recorded s = s.reboot ≡ true → s.reg.reset_cause ≡ reset_cause_reboot

write-Recorded :
    (s : Syscon) (addr size value : ℕ)
    → Recorded s
    → Recorded (syscon_write s addr size value).0
      × ((syscon_write s addr size value).0.base ≡ s.base)
unfolding syscon_write
write-Recorded s addr size value r = ground arith

writes-Recorded :
    (s : Syscon) (ws : List (ℕ × ℕ × ℕ))
    → Recorded s
    → Recorded (writes s ws) × ((writes s ws).base ≡ s.base)
unfolding writes
writes-Recorded s [] r = (r, refl)
writes-Recorded s ((addr, size, value) ∷ ws) r =
    let (r', b) = write-Recorded s addr size value r in
    let (r'', b') = writes-Recorded (syscon_write s addr size value).0 ws r' in (r'', b' ∙ b)

-- Whatever was written since the initialisation: if a reboot is requested, then after the reset that
-- serves it nothing is requested any more, and the register of the reset cause, read at its address,
-- says that there was a reboot.
pub reboot_cause_survives :
    (s : Syscon) (base : ℕ) (ws : List (ℕ × ℕ × ℕ))
    → base + 4 ≤ 2 ^ 64
    → syscon_reboot_requested (writes (syscon_init s base) ws) ≡ true
    → (syscon_read (syscon_reset (writes (syscon_init s base) ws)) (base + 4) 4
        ≡ some reset_cause_reboot)
      × (syscon_reboot_requested (syscon_reset (writes (syscon_init s base) ws)) ≡ false)
      × (syscon_poweroff_requested (syscon_reset (writes (syscon_init s base) ws)) ≡ false)
unfolding syscon_reset syscon_read syscon_reboot_requested syscon_poweroff_requested
reboot_cause_survives s base ws fits requested =
    let (r, b) = writes-Recorded (syscon_init s base) ws (initial s base) in
    ground (arith, initial_base s base)
  where
    initial : (s : Syscon) (base : ℕ) → Recorded (syscon_init s base)
    initial s base = unfold syscon_init in (λ e. cc)

    initial_base : (s : Syscon) (base : ℕ) → (syscon_init s base).base ≡ base
    initial_base s base = unfold syscon_init in refl
