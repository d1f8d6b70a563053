-- ===== src/Bits/Step.antt =====
-- The lowest binary digit of `bit_and` and `bit_or`. Both stand for a recursion on fuel, and any
-- fuel that reaches the first argument gives the same number.
use Prim.Native.Nat.{min, max, digits, bitwise, bit_and-bitwise, bit_or-bitwise}
use tiny_linux_rv.Prelude.{
  ℕ, zero, suc, ◌+◌, ◌*◌, ◌/◌, ◌%◌, ◌≤◌, bit_and, bit_or, ◌≡◌, ◌⊎◌, inl, inr, refl, ◌∙◌, arith,
}

top_or_below : (a n : ℕ) → a ≤ suc n → (a ≤ n) ⊎ (a ≡ suc n)
top_or_below a n h = ground arith

module _ (last : ℕ → ℕ) (op : ℕ → ℕ → ℕ) where
  one_more : (n a b : ℕ) → a ≤ n → digits last op (suc n) a b ≡ digits last op n a b
  one_more zero zero b h = refl
  one_more (suc n) zero b h = refl
  one_more zero (suc a) b h = absurd (omega arith)
  one_more (suc n) (suc a) b h = rw (one_more n (suc a / 2) (b / 2) (omega arith)) refl

  exact_fuel : (n a b : ℕ) → a ≤ n → digits last op n a b ≡ digits last op a a b
  exact_fuel zero zero b h = refl
  exact_fuel zero (suc a) b h = absurd (omega arith)
  exact_fuel (suc n) a b h = elim (top_or_below a n h) [
    | inl below ↦ one_more n a b below ∙ exact_fuel n a b below
    | inr top ↦ rw top refl
  ]

  lowest_digit :
      (b a : ℕ)
      → bitwise last op (suc a) b ≡ op (suc a % 2) (b % 2) + 2 * bitwise last op (suc a / 2) (b / 2)
  lowest_digit b a = omega (arith, exact_fuel a (suc a / 2) (b / 2) (omega arith))

pub low-bit_and : (x y : ℕ) → bit_and x y ≡ min (x % 2) (y % 2) + 2 * bit_and (x / 2) (y / 2)
low-bit_and (suc x) y = simp bit_and-bitwise (lowest_digit (λ d. 0) min y x)
low-bit_and zero y = simp bit_and-bitwise (omega arith)

pub low-bit_or : (x y : ℕ) → bit_or x y ≡ max (x % 2) (y % 2) + 2 * bit_or (x / 2) (y / 2)
low-bit_or (suc x) y = simp bit_or-bitwise (lowest_digit (λ d. d) max y x)
low-bit_or zero y = simp bit_or-bitwise (omega arith)
