-- ===== src/Uart/Field.antt =====
-- The macros FIELD_READ and FIELD_WRITE of emulator/src/device/uart16550.c, and their laws.
use tiny_linux_rv.Prelude.{
  ℕ, ◌+◌, ◌-◌, ◌*◌, ◌%◌, ◌^◌, ◌<◌, ◌≤◌, ◌≡◌, ◌⊎◌, bit_and, bit_or, ◌&&◌, arith, ltb, leb,
  if◌then◌else◌,
}
use tiny_linux_rv.Bits.{
  test_bit, test_bit-and, test_bit-or, test_bit-shr, test_bit-shl, test_bit-mod, test_bit-mask,
  bit_and-lt, bits_ext,
}
use tiny_linux_rv.Word.{u8, not32, ◌>>>◌, test_bit-and_not32}

abbrev pub bit_mask : ℕ → ℕ
bit_mask width = 2 ^ width - 1

abbrev pub field_mask : ℕ → ℕ → ℕ
field_mask bit width = bit_mask width * 2 ^ bit

unfoldable pub field_read : ℕ → ℕ → ℕ → ℕ
field_read reg bit width = bit_and (reg >>> bit) (bit_mask width)

-- What the macro stores in `reg`.
unfoldable pub field_write : ℕ → ℕ → ℕ → ℕ → ℕ
field_write reg data' bit width =
    u8 (
      bit_or (bit_and reg (not32 (field_mask bit width)))
        (bit_and data' (bit_mask width) * 2 ^ bit))

pub test_bit-read : (r b w i : ℕ) → test_bit (field_read r b w) i ≡ (ltb i w && test_bit r (i + b))
unfolding field_read
test_bit-read r b w i =
    ground (arith, test_bit-and (r >>> b) (2 ^ w - 1) i, test_bit-shr b r i, test_bit-mask w i)

pub test_bit-write :
    (r d b w i : ℕ)
    → field_mask b w < 2 ^ 8
    → b + w ≤ 8
    → test_bit (field_write r d b w) i
      ≡ (ltb i 8 && (if leb b i && ltb i (b + w) then test_bit d (i - b) else test_bit r i))
unfolding field_write
test_bit-write r d b w i small fits = ground (
  arith,
  test_bit-mod 8 (bit_or (bit_and r (not32 (field_mask b w))) (bit_and d (2 ^ w - 1) * 2 ^ b)) i,
  test_bit-or (bit_and r (not32 (field_mask b w))) (bit_and d (2 ^ w - 1) * 2 ^ b) i,
  test_bit-and_not32 r (field_mask b w) i,
  test_bit-shl b (2 ^ w - 1) i,
  test_bit-shl b (bit_and d (2 ^ w - 1)) i,
  test_bit-and d (2 ^ w - 1) (i - b),
  test_bit-mask w (i - b),
)

pub read-write_self :
    (r d b w : ℕ)
    → field_mask b w < 2 ^ 8
    → b + w ≤ 8
    → field_read (field_write r d b w) b w ≡ d % 2 ^ w
read-write_self r d b w small fits = bits_ext _ _ λ i. ground (
  arith,
  test_bit-read (field_write r d b w) b w i,
  test_bit-write r d b w (i + b) small fits,
  test_bit-mod w d i,
)

pub read-write_ne :
    (r d b w c u : ℕ)
    → field_mask b w < 2 ^ 8
    → b + w ≤ 8
    → c + u ≤ 8
    → (b + w ≤ c) ⊎ (c + u ≤ b)
    → field_read (field_write r d b w) c u ≡ field_read r c u
read-write_ne r d b w c u small fits fits' apart = bits_ext _ _ λ i. ground (
  arith,
  test_bit-read (field_write r d b w) c u i,
  test_bit-write r d b w (i + c) small fits,
  test_bit-read r c u i,
)

pub one_bit : (r b : ℕ) → field_read r b 1 < 2
unfolding field_read
one_bit r b = bit_and-lt 1 (r >>> b) 1 (omega arith)
