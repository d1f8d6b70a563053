-- ===== src/Word.antt =====
-- The casts, shifts and complements of C on the unsigned integers of the emulator.
use tiny_linux_rv.Prelude.{
  ℕ, ◌+◌, ◌-◌, ◌*◌, ◌/◌, ◌%◌, ◌^◌, ◌<◌, bit_and, ◌≡◌, ◌&&◌, false, not, arith, ltb, if◌then◌else◌,
}
use tiny_linux_rv.Bits.{test_bit, test_bit-and, test_bit-mod, test_bit-shl, test_bit-not}

abbrev pub u8 : ℕ → ℕ
u8 n = n % 2 ^ 8

abbrev pub u16 : ℕ → ℕ
u16 n = n % 2 ^ 16

abbrev pub u32 : ℕ → ℕ
u32 n = n % 2 ^ 32

abbrev pub u64 : ℕ → ℕ
u64 n = n % 2 ^ 64

abbrev pub uint64_max : ℕ
uint64_max = 2 ^ 64 - 1

infixl 75 ◌>>>◌ ◌<<<◌
abbrev pub ◌>>>◌ : ℕ → ℕ → ℕ
x >>> k = x / 2 ^ k

-- `x << k` of a `uint64_t`: what passes bit 63 is lost.
abbrev pub ◌<<<◌ : ℕ → ℕ → ℕ
x <<< k = u64 (x * 2 ^ k)

-- `~x` of a `uint64_t` and of a `uint32_t`, which stand below `2 ^ 64` and `2 ^ 32`.
abbrev pub not64 : ℕ → ℕ
not64 x = 2 ^ 64 - 1 - x

abbrev pub not32 : ℕ → ℕ
not32 x = 2 ^ 32 - 1 - x

-- `a - b` of `uint64_t`.
abbrev pub sub64 : ℕ → ℕ → ℕ
sub64 a b = (a + 2 ^ 64 - b) % 2 ^ 64

-- Clearing bits by `x & ~m`.
pub test_bit-and_not64 :
    (x m i : ℕ)
    → m < 2 ^ 64
    → test_bit (bit_and x (not64 m)) i ≡ (test_bit x i && (ltb i 64 && not (test_bit m i)))
test_bit-and_not64 x m i h = ground (arith, test_bit-and x (not64 m) i, test_bit-not 64 m i h)

pub test_bit-and_not32 :
    (x m i : ℕ)
    → m < 2 ^ 32
    → test_bit (bit_and x (not32 m)) i ≡ (test_bit x i && (ltb i 32 && not (test_bit m i)))
test_bit-and_not32 x m i h = ground (arith, test_bit-and x (not32 m) i, test_bit-not 32 m i h)

pub test_bit-shl64 :
    (x k i : ℕ)
    → test_bit (x <<< k) i ≡ (ltb i 64 && (if ltb i k then false else test_bit x (i - k)))
test_bit-shl64 x k i = ground (arith, test_bit-mod 64 (x * 2 ^ k) i, test_bit-shl k x i)
