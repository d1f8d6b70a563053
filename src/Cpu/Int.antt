-- ===== src/Cpu/Int.antt =====
-- The signed integers of C at a width, as emulator/src/cpu/cpu.c uses them through its casts: the value
-- of a word, and the word of a value.
use tiny_linux_rv.Prelude.{
  ℕ, zero, suc, ◌+◌, ◌-◌, ◌*◌, ◌/◌, ◌%◌, ◌^◌, Bool, true, false, ltb, if◌then◌else◌,
}

-- `negsuc n` is the integer -1 - n.
pub data ℤ : Type 0 where
  pos negsuc : ℕ → ℤ

-- `(intw_t)x`, and back.
unfoldable pub to_int : ℕ → ℕ → ℤ
to_int w x = if ltb x (2 ^ (w - 1)) then pos x else negsuc (2 ^ w - 1 - x)

unfoldable pub of_int : ℕ → ℤ → ℕ
of_int w (pos n) = n % 2 ^ w
of_int w (negsuc n) = 2 ^ w - 1 - n % 2 ^ w

abbrev pub neg : ℕ → ℤ
neg zero = pos 0
neg (suc n) = negsuc n

-- `a < b`
abbrev pub lt_int : ℤ → ℤ → Bool
lt_int (pos a) (pos b) = ltb a b
lt_int (pos a) (negsuc b) = false
lt_int (negsuc a) (pos b) = true
lt_int (negsuc a) (negsuc b) = ltb b a

-- `a * b`
abbrev pub mul_int : ℤ → ℤ → ℤ
mul_int (pos a) (pos b) = pos (a * b)
mul_int (pos a) (negsuc b) = neg (a * (b + 1))
mul_int (negsuc a) (pos b) = neg ((a + 1) * b)
mul_int (negsuc a) (negsuc b) = pos ((a + 1) * (b + 1))

-- `a / b` and `a % b`, which round towards 0.
abbrev pub div_int : ℤ → ℤ → ℤ
div_int (pos a) (pos b) = pos (a / b)
div_int (pos a) (negsuc b) = neg (a / (b + 1))
div_int (negsuc a) (pos b) = neg ((a + 1) / b)
div_int (negsuc a) (negsuc b) = pos ((a + 1) / (b + 1))

abbrev pub rem_int : ℤ → ℤ → ℤ
rem_int (pos a) (pos b) = pos (a % b)
rem_int (pos a) (negsuc b) = pos (a % (b + 1))
rem_int (negsuc a) (pos b) = neg ((a + 1) % b)
rem_int (negsuc a) (negsuc b) = neg ((a + 1) % (b + 1))

-- `a >> k`, which rounds down.
abbrev pub shr_int : ℤ → ℕ → ℤ
shr_int (pos a) k = pos (a / 2 ^ k)
shr_int (negsuc a) k = negsuc (a / 2 ^ k)
