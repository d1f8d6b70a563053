-- ===== src/Csr/Field.antt =====
-- `csr_field_get` and `csr_field_set` of emulator/src/cpu/csr.c, and their laws.
use native.Mathlib.Nat.{mod-lt, one-le-pow}
use tiny_linux_rv.Prelude.{
  ℕ, ◌⊎◌, ◌<◌, ◌+◌, ◌-◌, ◌/◌, ◌%◌, ◌^◌, ◌≤◌, bit_and, bit_or, ◌≡◌, ◌&&◌, arith, ltb, leb,
  if◌then◌else◌, refl, inl, inr, Bool, true, false, ◌==◌, to_num, Bool-cases,
}
use tiny_linux_rv.Bits.{
  test_bit, test_bit-and, test_bit-or, test_bit-shr, test_bit-mod, test_bit-mask, test_bit-zero,
  bits_ext,
}
use tiny_linux_rv.Word.{◌>>>◌, ◌<<<◌, not64, test_bit-and_not64, test_bit-shl64}

unfoldable pub csr_field_get : ℕ → ℕ → ℕ → ℕ
csr_field_get reg pos width = let mask = 2 ^ width - 1 in bit_and (reg >>> pos) mask

unfoldable pub csr_field_set : ℕ → ℕ → ℕ → ℕ → ℕ
csr_field_set reg pos width value =
    let mask = 2 ^ width - 1 in
    let mask_shifted = mask <<< pos in
    let value_shifted = value <<< pos in
    bit_or (bit_and reg (not64 mask_shifted)) (bit_and value_shifted mask_shifted)

pub test_bit-get :
    (r p w i : ℕ) → test_bit (csr_field_get r p w) i ≡ (ltb i w && test_bit r (i + p))
unfolding csr_field_get
test_bit-get r p w i =
    ground (arith, test_bit-and (r >>> p) (2 ^ w - 1) i, test_bit-shr p r i, test_bit-mask w i)

-- A field is a remainder.
pub get-eq-mod : (r p w : ℕ) → csr_field_get r p w ≡ r / 2 ^ p % 2 ^ w
get-eq-mod r p w =
    bits_ext _ _
      λ i. ground (arith, test_bit-get r p w i, test_bit-mod w (r / 2 ^ p) i, test_bit-shr p r i)

pub test_bit-set :
    (r p w v i : ℕ)
    → p + w ≤ 64
    → test_bit (csr_field_set r p w v) i
      ≡ (ltb i 64 && (if leb p i && ltb i (p + w) then test_bit v (i - p) else test_bit r i))
unfolding csr_field_set
test_bit-set r p w v i fits = ground (
  arith,
  test_bit-or (bit_and r (not64 ((2 ^ w - 1) <<< p))) (bit_and (v <<< p) ((2 ^ w - 1) <<< p)) i,
  test_bit-and_not64 r ((2 ^ w - 1) <<< p) i (omega arith),
  test_bit-and (v <<< p) ((2 ^ w - 1) <<< p) i,
  test_bit-shl64 (2 ^ w - 1) p i,
  test_bit-shl64 v p i,
  test_bit-mask w (i - p),
)

-- Reading back what was written.
pub get-set_self :
    (r p w v : ℕ) → p + w ≤ 64 → csr_field_get (csr_field_set r p w v) p w ≡ v % 2 ^ w
get-set_self r p w v fits = bits_ext _ _ λ i. ground (
  arith,
  test_bit-get (csr_field_set r p w v) p w i,
  test_bit-set r p w v (i + p) fits,
  test_bit-mod w v i,
)

-- Other fields keep their value.
pub get-set_ne :
    (r p w v q u : ℕ)
    → p + w ≤ 64
    → q + u ≤ 64
    → (p + w ≤ q) ⊎ (q + u ≤ p)
    → csr_field_get (csr_field_set r p w v) q u ≡ csr_field_get r q u
get-set_ne r p w v q u fits fits' apart = bits_ext _ _ λ i. ground (
  arith,
  test_bit-get (csr_field_set r p w v) q u i,
  test_bit-set r p w v (i + q) fits,
  test_bit-get r q u i,
)

pub get-lt : (r p w : ℕ) → csr_field_get r p w < 2 ^ w
get-lt r p w = rw get-eq-mod (mod-lt _ (one-le-pow w 2 (omega arith)))

-- `addr & ~3` clears the low two bits.
pub get-aligned : (v : ℕ) → csr_field_get (bit_and v (not64 3)) 0 2 ≡ 0
get-aligned v = bits_ext _ _ λ i. ground (
  arith,
  test_bit-get (bit_and v (not64 3)) 0 2 i,
  test_bit-and_not64 v 3 (i + 0) (omega arith),
  test_bit-mask 2 (i + 0),
  test_bit-zero i,
)

test_bit-num : (b : Bool) → test_bit (to_num b) 0 ≡ b
unfolding test_bit
test_bit-num true = refl
test_bit-num false = refl

-- A field of one bit that a condition is written to.
pub set_bit :
    (x p : ℕ) (b : Bool) (i : ℕ)
    → p < 64
    → i < 64
    → test_bit (csr_field_set x p 1 (to_num b)) i ≡ (if i == p then b else test_bit x i)
set_bit x p b i h h' = elim (Bool-cases (i == p)) [
  | inl same ↦
      let zero_off : i - p ≡ 0 = ground (arith, same) in
      let low : test_bit (to_num b) (i - p) ≡ b = rw zero_off (test_bit-num b) in
      ground (arith, test_bit-set x p 1 (to_num b) i, low)
  | inr other ↦ ground (arith, test_bit-set x p 1 (to_num b) i)
]
