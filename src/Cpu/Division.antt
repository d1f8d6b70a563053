-- ===== src/Cpu/Division.antt =====
-- The division instructions of emulator/src/cpu/cpu.c: quotient and remainder belong together.
use native.Mathlib.Nat.{
  div-add-mod', add-mul, mul-add, div-le_self, mod-le, mod-eq_of_lt, mod-lt, mul_comm, mul_assoc,
}
use tiny_linux_rv.Prelude.{
  ℕ, zero, suc, ◌+◌, ◌-◌, ◌*◌, ◌/◌, ◌%◌, ◌^◌, ◌≤◌, ◌<◌, ◌≡◌, ◌⊎◌, ◌∙◌, refl, sym, ap, inl, inr, ltb,
  ◌==◌, arith, Bool-cases,
}
use tiny_linux_rv.Word.{u64}
use tiny_linux_rv.Cpu.Int.{pos, negsuc, to_int, of_int, neg, div_int, rem_int}
use tiny_linux_rv.Cpu.Arith.{overflows64, div, divu, rem, remu}

-- The word of -q, modulo 2 ^ 64.
word_neg : (q : ℕ) → q < 2 ^ 64 → (j : ℕ) × (of_int 64 (neg q) + q ≡ j * 2 ^ 64)
unfolding of_int
word_neg zero h = (0, refl)
word_neg (suc n) h = (1, omega arith)

pub word_int :
    (a : ℕ)
    → a < 2 ^ 64
    → ((a < 2 ^ 63) × (to_int 64 a ≡ pos a))
      ⊎ ((2 ^ 63 ≤ a) × (to_int 64 a ≡ negsuc (2 ^ 64 - 1 - a)))
unfolding to_int
word_int a h = elim (Bool-cases (ltb a (2 ^ 63))) [
  | inl e ↦ inl (ground arith, rw e refl)
  | inr e ↦ inr (ground arith, rw e refl)
]

-- With x' = -x modulo 2 ^ 64, the product x' * c is -(x * c).
opposite : (x x' c j : ℕ) → x' + x ≡ j * 2 ^ 64 → x' * c + x * c ≡ j * c * 2 ^ 64
opposite x x' c j h =
    sym (add-mul x' x c)
    ∙ ap (λ v. v * c) h
    ∙ mul_assoc j (2 ^ 64) c
    ∙ ap (λ v. j * v) (mul_comm (2 ^ 64) c)
    ∙ sym (mul_assoc j c (2 ^ 64))

word_pos : (q : ℕ) → q < 2 ^ 64 → of_int 64 (pos q) ≡ q
unfolding of_int
word_pos q h = mod-eq_of_lt h

both_positive :
    (a b : ℕ) → a < 2 ^ 64 → u64 (of_int 64 (pos (a / b)) * b + of_int 64 (pos (a % b))) ≡ a
both_positive a b h =
    rw
      (
        word_pos (a / b) (omega (arith, div-le_self a b)),
        word_pos (a % b) (omega (arith, mod-le a b)),
      )
      (omega (arith, div-add-mod' a b))

-- A dividend a' = -a and a divisor b.
negative_dividend :
    (a a' b : ℕ)
    → a' + a ≡ 2 ^ 64
    → a' < 2 ^ 64
    → a ≤ 2 ^ 63
    → u64 (of_int 64 (neg (a / b)) * b + of_int 64 (neg (a % b))) ≡ a'
negative_dividend a a' b e l h =
    let whole : a / b * b + a % b ≡ a = div-add-mod' a b in
    let (j, s) = word_neg (a / b) (omega (arith, div-le_self a b)) in
    let (k, t) = word_neg (a % b) (omega (arith, mod-le a b)) in
    omega (arith, opposite (a / b) (of_int 64 (neg (a / b))) b j s)

-- A dividend a and a divisor b' = -b.
negative_divisor :
    (a b b' : ℕ)
    → b' + b ≡ 2 ^ 64
    → a < 2 ^ 63
    → u64 (of_int 64 (neg (a / b)) * b' + of_int 64 (pos (a % b))) ≡ a
negative_divisor a b b' e h =
    let whole : a / b * b + a % b ≡ a = div-add-mod' a b in
    let (j, s) = word_neg (a / b) (omega (arith, div-le_self a b)) in
    let w = of_int 64 (neg (a / b)) in
    let split : w * b' + w * b ≡ w * 2 ^ 64 = sym (mul-add w b' b) ∙ ap (λ v. w * v) e in
    rw (word_pos (a % b) (omega (arith, mod-le a b)))
      (omega (arith, split, opposite (a / b) w b j s))

-- Both negative: a' = -a and b' = -b.
both_negative :
    (a a' b b' : ℕ)
    → a' + a ≡ 2 ^ 64
    → b' + b ≡ 2 ^ 64
    → a' < 2 ^ 64
    → a ≤ 2 ^ 63
    → u64 (of_int 64 (pos (a / b)) * b' + of_int 64 (neg (a % b))) ≡ a'
both_negative a a' b b' e f l h =
    let whole : a / b * b + a % b ≡ a = div-add-mod' a b in
    let (k, t) = word_neg (a % b) (omega (arith, mod-le a b)) in
    let split : a / b * b' + a / b * b ≡ a / b * 2 ^ 64 =
      sym (mul-add (a / b) b' b) ∙ ap (λ v. a / b * v) f in
    rw (word_pos (a / b) (omega (arith, div-le_self a b))) (omega (arith, split))

-- What the C division of the signed values makes of two words.
signed-div-rem :
    (a b : ℕ)
    → a < 2 ^ 64
    → b < 2 ^ 64
    → u64 (
        of_int 64 (div_int (to_int 64 a) (to_int 64 b)) * b
        + of_int 64 (rem_int (to_int 64 a) (to_int 64 b)))
      ≡ a
signed-div-rem a b h h' = elim (word_int a h) [
  | inl (l, p) ↦ elim (word_int b h') [
    | inl (l', p') ↦ rw (p, p') (both_positive a b h)
    | inr (l', p') ↦ rw (p, p') (negative_divisor a (2 ^ 64 - 1 - b + 1) b (omega arith) l)
  ]
  | inr (l, p) ↦ elim (word_int b h') [
    | inl (l', p') ↦
        rw (p, p') (negative_dividend (2 ^ 64 - 1 - a + 1) a b (omega arith) h (omega arith))
    | inr (l', p') ↦
        rw (p, p')
          (both_negative (2 ^ 64 - 1 - a + 1) a (2 ^ 64 - 1 - b + 1) b (omega arith) (omega arith) h
            (omega arith))
  ]
]

div-rem-signed : (a b : ℕ) → a < 2 ^ 64 → b < 2 ^ 64 → u64 (div a b * b + rem a b) ≡ a
unfolding div rem
div-rem-signed a b h h' = elim (Bool-cases (b == 0)) [
  | inl z ↦ let none : b ≡ 0 = ground arith in rw z (omega arith)
  | inr z ↦ elim (Bool-cases (overflows64 a b)) [
    | inl o ↦ let values : (a ≡ 2 ^ 63) × (b ≡ 2 ^ 64 - 1) = ground arith in rw (z, o) (omega arith)
    | inr o ↦ rw (z, o) (signed-div-rem a b h h')
  ]
]

div-rem-unsigned : (a b : ℕ) → a < 2 ^ 64 → u64 (divu a b * b + remu a b) ≡ a
unfolding divu remu
div-rem-unsigned a b h = elim (Bool-cases (b == 0)) [
  | inl z ↦ let none : b ≡ 0 = ground arith in rw z (omega arith)
  | inr z ↦ rw z (omega (arith, div-add-mod' a b))
]

-- Quotient and remainder belong together, also for a divisor of 0 and for the overflow of the smallest number
-- by -1: for all words a and b, DIV a b * b + REM a b is a modulo 2 ^ 64, and so is DIVU a b * b + REMU a b; and
-- for b other than 0 the unsigned remainder is below b.
pub div-rem :
    (a b : ℕ)
    → a < 2 ^ 64
    → b < 2 ^ 64
    → (u64 (div a b * b + rem a b) ≡ a)
      × (u64 (divu a b * b + remu a b) ≡ a)
      × (0 < b → remu a b < b)
unfolding remu
div-rem a b h h' =
    (div-rem-signed a b h h', div-rem-unsigned a b h, λ p. ground (arith, mod-lt a p))
