-- ===== src/Bits.antt =====
-- Machine words bit by bit: `test_bit x i` is bit `i` of `x`, and each operation of C on words is
-- described by the bits of its result.
mod Step
use Step.{low-bit_or, low-bit_and}
use native.Mathlib.Nat.{
  le_trans, pow-suc, pow-succ', one-le-pow, pow-le-pow_right, div-one, mod-one, add-zero, add-suc,
  div-div-eq-div-mul, mul_assoc, mul-one, one-mul, add-mul-mod_self_right, mod-eq_of_lt, mod-lt,
  div-add-mod',
}
use tiny_linux_rv.Prelude.{
  ℕ, zero, suc, ◌+◌, ◌-◌, ◌*◌, ◌/◌, ◌%◌, ◌^◌, ◌≤◌, ◌<◌, bit_and, bit_or, ◌≡◌, refl, sym, ap, ◌∙◌,
  Bool, true, false, ◌&&◌, ◌||◌, not, arith, ltb, ◌==◌, if◌then◌else◌, nonzero, Bool-cases, inl,
  inr,
}

unfoldable pub test_bit : ℕ → ℕ → Bool
test_bit x zero = x % 2 == 1
test_bit x (suc i) = test_bit (x / 2) i

pub test_bit-zero : (i : ℕ) → test_bit 0 i ≡ false
unfolding test_bit
test_bit-zero zero = refl
test_bit-zero (suc i) = test_bit-zero i

half-and : (a b : ℕ) → bit_and a b / 2 ≡ bit_and (a / 2) (b / 2)
half-and a b = omega (arith, low-bit_and a b)

half-or : (a b : ℕ) → bit_or a b / 2 ≡ bit_or (a / 2) (b / 2)
half-or a b = omega (arith, low-bit_or a b)

pub test_bit-and : (a b i : ℕ) → test_bit (bit_and a b) i ≡ (test_bit a i && test_bit b i)
unfolding test_bit
test_bit-and a b zero = ground (arith, low-bit_and a b)
test_bit-and a b (suc i) = rw half-and (test_bit-and (a / 2) (b / 2) i)

pub test_bit-or : (a b i : ℕ) → test_bit (bit_or a b) i ≡ (test_bit a i || test_bit b i)
unfolding test_bit
test_bit-or a b zero = ground (arith, low-bit_or a b)
test_bit-or a b (suc i) = rw half-or (test_bit-or (a / 2) (b / 2) i)

-- Two words with the same bits are equal.
ext_below : (w a b : ℕ) → a < 2 ^ w → b < 2 ^ w → ((i : ℕ) → test_bit a i ≡ test_bit b i) → a ≡ b
unfolding test_bit
ext_below zero a b p q h = omega arith
ext_below (suc w) a b p q h =
    let halves : a / 2 ≡ b / 2 =
      ext_below w (a / 2) (b / 2) (omega (arith, pow-suc 2 w)) (omega (arith, pow-suc 2 w))
        (λ i. h (suc i)) in
    ground (arith, halves, h 0)

lt-two_pow : (n : ℕ) → n < 2 ^ n
lt-two_pow zero = omega arith
lt-two_pow (suc n) = omega (arith, lt-two_pow n, pow-suc 2 n)

pub bits_ext : (a b : ℕ) → ((i : ℕ) → test_bit a i ≡ test_bit b i) → a ≡ b
bits_ext a b h =
    ext_below (a + b) a b (le_trans (lt-two_pow a) (pow-le-pow_right (omega arith) (omega arith)))
      (le_trans (lt-two_pow b) (pow-le-pow_right (omega arith) (omega arith))) h

-- Shifts and masks.
pub test_bit-shr : (k x i : ℕ) → test_bit (x / 2 ^ k) i ≡ test_bit x (i + k)
unfolding test_bit
test_bit-shr zero x i = rw (div-one, add-zero)
test_bit-shr (suc k) x i = rw (add-suc, pow-succ', ← div-div-eq-div-mul) (test_bit-shr k (x / 2) i)

double-shl : (x k : ℕ) → x * 2 ^ suc k ≡ x * 2 ^ k * 2
double-shl x k = rw pow-suc (sym (mul_assoc x (2 ^ k) 2))

pub test_bit-shl :
    (k x i : ℕ) → test_bit (x * 2 ^ k) i ≡ (if ltb i k then false else test_bit x (i - k))
unfolding test_bit
test_bit-shl zero x zero = ground arith
test_bit-shl zero x (suc i) = rw mul-one (ground arith)
test_bit-shl (suc k) x zero = ground (arith, double-shl x k)
test_bit-shl (suc k) x (suc i) =
    let half : x * 2 ^ suc k / 2 ≡ x * 2 ^ k = omega (arith, double-shl x k) in
    ground (arith, half, test_bit-shl k x i)

mod-double : (x m : ℕ) → 0 < m → x % (m * 2) ≡ x / 2 % m * 2 + x % 2
mod-double x m pos =
    let small : x / 2 % m * 2 + x % 2 < m * 2 = omega (arith, mod-lt (x / 2) pos) in
    let split : x ≡ (x / 2 % m * 2 + x % 2) + x / 2 / m * (m * 2) =
      omega (arith, ap (λ (t : ℕ). t * 2) (div-add-mod' (x / 2) m)) in
    ap (λ (t : ℕ). t % (m * 2)) split
    ∙ (add-mul-mod_self_right (x / 2 % m * 2 + x % 2) (x / 2 / m) (m * 2) ∙ mod-eq_of_lt small)

pub test_bit-mod : (w x i : ℕ) → test_bit (x % 2 ^ w) i ≡ (ltb i w && test_bit x i)
unfolding test_bit
test_bit-mod zero x i = rw (mod-one, test_bit-zero i) (ground arith)
test_bit-mod (suc w) x zero =
    ground (arith, pow-suc 2 w, mod-double x (2 ^ w) (one-le-pow w 2 (omega arith)))
test_bit-mod (suc w) x (suc i) =
    let half : x % 2 ^ suc w / 2 ≡ x / 2 % 2 ^ w =
      ground (arith, pow-suc 2 w, mod-double x (2 ^ w) (one-le-pow w 2 (omega arith))) in
    ground (arith, half, test_bit-mod w (x / 2) i)

-- `~x` at width `w` is `2 ^ w - 1 - x`.
pub test_bit-not :
    (w x i : ℕ) → x < 2 ^ w → test_bit (2 ^ w - 1 - x) i ≡ (ltb i w && not (test_bit x i))
unfolding test_bit
test_bit-not zero x zero h = ground arith
test_bit-not zero x (suc i) h =
    let none : (0 - x) / 2 ≡ 0 = omega arith in ground (arith, none, test_bit-zero i)
test_bit-not (suc w) x zero h = ground (arith, pow-suc 2 w)
test_bit-not (suc w) x (suc i) h =
    let half : (2 ^ suc w - 1 - x) / 2 ≡ 2 ^ w - 1 - x / 2 = omega (arith, pow-suc 2 w) in
    ground (arith, half, test_bit-not w (x / 2) i (omega (arith, pow-suc 2 w)))

pub test_bit-mask : (w i : ℕ) → test_bit (2 ^ w - 1) i ≡ ltb i w
unfolding test_bit
test_bit-mask zero i = ground (arith, test_bit-zero i)
test_bit-mask (suc w) zero = ground (arith, pow-suc 2 w, one-le-pow w 2)
test_bit-mask (suc w) (suc i) =
    let half : (2 ^ suc w - 1) / 2 ≡ 2 ^ w - 1 = omega (arith, pow-suc 2 w, one-le-pow w 2) in
    ground (arith, half, test_bit-mask w i)

-- A word below `2 ^ w` has no bit from `w` on.
pub test_bit-high : (w x i : ℕ) → x < 2 ^ w → w ≤ i → test_bit x i ≡ false
test_bit-high w x i h p =
    let same : x % 2 ^ w ≡ x = mod-eq_of_lt h in ground (arith, same, test_bit-mod w x i)

-- A word masked by one of `w` bits has `w` bits.
pub bit_and-lt : (w a b : ℕ) → b < 2 ^ w → bit_and a b < 2 ^ w
bit_and-lt w a b h =
    let same : bit_and a b % 2 ^ w ≡ bit_and a b = bits_ext _ _ λ i.
      ground (arith, test_bit-mod w (bit_and a b) i, test_bit-and a b i, test_bit-high w b i h) in
    rw (← same) (mod-lt _ (one-le-pow w 2 (omega arith)))

-- The bit that stands alone in `2 ^ k`, and `x & (1 << k)` as a condition.
test_bit-one : (j : ℕ) → test_bit 1 j ≡ (j == 0)
unfolding test_bit
test_bit-one zero = refl
test_bit-one (suc j) = ground (arith, test_bit-zero j)

pub test_bit-two_pow : (k i : ℕ) → test_bit (2 ^ k) i ≡ (i == k)
test_bit-two_pow k i = ground (arith, test_bit-shl k 1 i, test_bit-one (i - k), one-mul (2 ^ k))

pub nonzero-two_pow : (x k : ℕ) → nonzero (bit_and x (2 ^ k)) ≡ test_bit x k
nonzero-two_pow x k = elim (Bool-cases (test_bit x k)) [
  | inl set ↦ ground (arith, test_bit-and x (2 ^ k) k, test_bit-two_pow k k, test_bit-zero k)
  | inr clear ↦
      let none_set : bit_and x (2 ^ k) ≡ 0 =
        bits_ext _ _
          λ i. ground (arith, test_bit-and x (2 ^ k) i, test_bit-two_pow k i, test_bit-zero i) in
      ground (arith, none_set)
]

pub bit_and-mask : (w x : ℕ) → bit_and x (2 ^ w - 1) ≡ x % 2 ^ w
bit_and-mask w x =
    bits_ext _ _
      λ i. ground (arith, test_bit-and x (2 ^ w - 1) i, test_bit-mask w i, test_bit-mod w x i)
