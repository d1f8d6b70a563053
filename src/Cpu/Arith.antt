-- ===== src/Cpu/Arith.antt =====
-- The bit operations, multiplications and divisions of emulator/src/cpu/cpu.c. A `uint64_t` stands below
-- 2 ^ 64; a signed intermediate is an integer of Cpu.Int.
use tiny_linux_rv.Prelude.{
  ℕ, ◌+◌, ◌-◌, ◌*◌, ◌/◌, ◌%◌, ◌^◌, bit_and, Bool, ◌&&◌, ◌==◌, if◌then◌else◌,
}
use tiny_linux_rv.Word.{u32, u64, uint64_max, ◌>>>◌, ◌<<<◌}
use tiny_linux_rv.Cpu.Int.{to_int, of_int, mul_int, div_int, rem_int, shr_int}

abbrev pub bitmask : ℕ → ℕ
bitmask width = 2 ^ width - 1

unfoldable pub bits : ℕ → ℕ → ℕ → ℕ
bits value hi lo = bit_and (value >>> lo) (bitmask (hi - lo + 1))

unfoldable pub sext : ℕ → ℕ → ℕ
sext value width = let n = 64 - width in of_int 64 (shr_int (to_int 64 (value <<< n)) n)

unfoldable pub uext : ℕ → ℕ → ℕ
uext value width = let n = 64 - width in (value <<< n) >>> n

-- The high half of an `int128_t`, cast to `uint64_t`.
unfoldable pub mulh : ℕ → ℕ → ℕ
mulh a b = of_int 64 (shr_int (mul_int (to_int 64 a) (to_int 64 b)) 64)

unfoldable pub mulhu : ℕ → ℕ → ℕ
mulhu a b = u64 ((a * b) >>> 64)

-- `(uint128_t)(int64_t)a` extends the sign to 128 bits.
unfoldable pub mulhsu : ℕ → ℕ → ℕ
mulhsu a b = let sa = of_int 128 (to_int 64 a) in u64 ((sa * b % 2 ^ 128) >>> 64)

unfoldable pub mulw : ℕ → ℕ → ℕ
mulw a b = sext (u32 (u32 a * u32 b)) 32

-- INT64_MIN / -1 overflows.
abbrev pub overflows64 : ℕ → ℕ → Bool
overflows64 a b = a == 2 ^ 63 && b == uint64_max

abbrev pub overflows32 : ℕ → ℕ → Bool
overflows32 a b = u32 a == 2 ^ 31 && u32 b == 2 ^ 32 - 1

unfoldable pub div : ℕ → ℕ → ℕ
div a b =
    if b == 0
    then uint64_max
    else if overflows64 a b
    then 2 ^ 63
    else of_int 64 (div_int (to_int 64 a) (to_int 64 b))

unfoldable pub divu : ℕ → ℕ → ℕ
divu a b = if b == 0 then uint64_max else a / b

unfoldable pub rem : ℕ → ℕ → ℕ
rem a b =
    if b == 0
    then a
    else if overflows64 a b
    then 0
    else of_int 64 (rem_int (to_int 64 a) (to_int 64 b))

unfoldable pub remu : ℕ → ℕ → ℕ
remu a b = if b == 0 then a else a % b

-- `(uint64_t)` of an `int32_t` extends its sign.
unfoldable pub divw : ℕ → ℕ → ℕ
divw a b =
    let sa = to_int 32 (u32 a) in
    let sb = to_int 32 (u32 b) in
    if u32 b == 0
    then uint64_max
    else if overflows32 a b
    then of_int 64 (to_int 32 (2 ^ 31))
    else sext (of_int 64 (div_int sa sb)) 32

unfoldable pub divuw : ℕ → ℕ → ℕ
divuw a b = if u32 b == 0 then uint64_max else sext (u32 a / u32 b) 32

unfoldable pub remw : ℕ → ℕ → ℕ
remw a b =
    let sa = to_int 32 (u32 a) in
    let sb = to_int 32 (u32 b) in
    if u32 b == 0
    then sext a 32
    else if overflows32 a b
    then 0
    else sext (of_int 64 (rem_int sa sb)) 32

unfoldable pub remuw : ℕ → ℕ → ℕ
remuw a b = if u32 b == 0 then sext (u32 a) 32 else sext (u32 a % u32 b) 32
