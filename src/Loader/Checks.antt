-- ===== src/Loader/Checks.antt =====
-- The tests of `load_elf_segments` in emulator/src/memory/loader.c: what their outcomes say.
use tiny_linux_rv.Prelude.{
  ℕ, ◌+◌, ◌-◌, ◌^◌, ◌≤◌, ◌<◌, ◌≡◌, refl, sym, ap, Bool, true, false, not, Option, none, some, ltb,
  ◌==◌, if◌then◌else◌, arith,
}
use tiny_linux_rv.Word.{u64}
use tiny_linux_rv.Memory.Defs.{Memory, check_addr_range}

-- The loads of a segment that pass the range checks of the RAM put the entry point that it holds inside.
pub segment-range :
    (vaddr filesz memsz entry base size : ℕ)
    → base + size < 2 ^ 64
    → check_addr_range vaddr filesz base size ≡ true
    → check_addr_range (u64 (vaddr + filesz)) (memsz - filesz) base size ≡ true
    → filesz ≤ memsz
    → vaddr ≤ entry
    → entry - vaddr < memsz
    → (base ≤ entry) × (entry < base + size)
unfolding check_addr_range
segment-range vaddr filesz memsz entry base size h c c' f l l' = ground arith

pub negated : (b : Bool) → not b ≡ false → b ≡ true
negated true e = refl
negated false e = sym e

or_zero : Option ℕ → ℕ
or_zero none = 0
or_zero (some v) = v

none_given {ℓ} : {A : Type ℓ} {v : ℕ} → none ≡ some v → A
none_given e = absurd cc

-- The tests after the loop.
unfoldable pub verdict : Bool → Bool → Bool → Memory → ℕ → Memory × Option ℕ
verdict loaded_all loaded valid_entry m v =
    if not loaded_all
    then (m, none)
    else if not loaded
    then (m, none)
    else if not valid_entry
    then (m, none)
    else (m, some v)

pub from_tests :
    (a b c : Bool) (m m' : Memory) (v v' : ℕ)
    → verdict a b c m v ≡ (m', some v')
    → (c ≡ true) × (m' ≡ m) × (v' ≡ v)
unfolding verdict or_zero
from_tests true true true m m' v v' e = (refl, sym (ap (λ r. r.0) e), sym (ap (λ r. or_zero r.1) e))
from_tests true true false m m' v v' e = none_given (ap (λ r. r.1) e)
from_tests true false c m m' v v' e = none_given (ap (λ r. r.1) e)
from_tests false b c m m' v v' e = none_given (ap (λ r. r.1) e)

pub tested_equal : {a b : ℕ} → (a == b) ≡ true → a ≡ b
tested_equal e = ground arith

pub not_tested : {a b : ℕ} → ltb a b ≡ false → b ≤ a
not_tested e = ground arith
