-- ===== src/Cpu/Immediate.antt =====
-- The immediates of emulator/src/cpu/cpu.c against the bit tables of the instruction formats.
use tiny_linux_rv.Prelude.{
  ℕ, ◌+◌, ◌-◌, ◌^◌, ◌<◌, bit_and, bit_or, ◌≡◌, Bool, true, false, ◌&&◌, ◌||◌, not, ltb, ◌==◌,
  if◌then◌else◌, arith,
}
use tiny_linux_rv.Bits.{
  test_bit, test_bit-or, test_bit-and, test_bit-shl, test_bit-shr, test_bit-mask, test_bit-zero,
}
use tiny_linux_rv.Word.{◌<<<◌, test_bit-shl64}
use tiny_linux_rv.Cpu.Arith.{uext, bits}
use tiny_linux_rv.Cpu.Dispatch.{
  opcode_lui, opcode_auipc, opcode_jal, opcode_jalr, opcode_branch, opcode_load, opcode_store,
  opcode_op_imm, opcode_op_imm_32, opcode_system,
}
use tiny_linux_rv.Cpu.Decode.{imm_i, imm_s, imm_b, imm_u, imm_j, decode_imm}
use tiny_linux_rv.Cpu.Extend.{test_bit-sext, test_bit-bits}

-- Where bit `i` of an immediate stands in the instruction; `none` is a bit that is always 0.
abbrev pub from_i : ℕ → ℕ → Bool
from_i w i = if ltb i 12 then test_bit w (i + 20) else test_bit w 31

abbrev pub from_s : ℕ → ℕ → Bool
from_s w i =
    if ltb i 5 then test_bit w (i + 7) else if ltb i 12 then test_bit w (i + 20) else test_bit w 31

abbrev pub from_b : ℕ → ℕ → Bool
from_b w i =
    if i == 0
    then false
    else if ltb i 5
    then test_bit w (i + 7)
    else if ltb i 11
    then test_bit w (i + 20)
    else if i == 11
    then test_bit w 7
    else test_bit w 31

abbrev pub from_u : ℕ → ℕ → Bool
from_u w i = if ltb i 12 then false else if ltb i 32 then test_bit w i else test_bit w 31

abbrev pub from_j : ℕ → ℕ → Bool
from_j w i =
    if i == 0
    then false
    else if ltb i 11
    then test_bit w (i + 20)
    else if i == 11
    then test_bit w 20
    else if ltb i 20
    then test_bit w i
    else test_bit w 31

imm_i-bits : (w i : ℕ) → i < 64 → test_bit (imm_i w) i ≡ from_i w i
unfolding imm_i
imm_i-bits w i h =
    ground
      (arith, test_bit-sext (bits w 31 20) 12 i, test_bit-bits w 31 20 i, test_bit-bits w 31 20 11)

imm_s-bits : (w i : ℕ) → i < 64 → test_bit (imm_s w) i ≡ from_s w i
unfolding imm_s
imm_s-bits w i h = ground (
  arith,
  test_bit-sext (bit_or (bits w 11 7) (bits w 31 25 <<< 5)) 12 i,
  test_bit-or (bits w 11 7) (bits w 31 25 <<< 5) i,
  test_bit-or (bits w 11 7) (bits w 31 25 <<< 5) 11,
  test_bit-bits w 11 7 i,
  test_bit-bits w 11 7 11,
  test_bit-shl64 (bits w 31 25) 5 i,
  test_bit-shl64 (bits w 31 25) 5 11,
  test_bit-bits w 31 25 (i - 5),
  test_bit-bits w 31 25 6,
)

-- A field of the instruction moved to bit `k`.
field-bit :
    (w hi lo k i : ℕ)
    → test_bit (bits w hi lo <<< k) i ≡ (
        ltb i 64
        && (if ltb i k then false else ltb (i - k) (hi - lo + 1) && test_bit w (i - k + lo)))
field-bit w hi lo k i =
    ground (arith, test_bit-shl64 (bits w hi lo) k i, test_bit-bits w hi lo (i - k))

upper-bit : (j : ℕ) → test_bit 0xfffff000 j ≡ (ltb j 32 && not (ltb j 12))
upper-bit j = ground (arith, test_bit-shl 12 (2 ^ 20 - 1) j, test_bit-mask 20 (j - 12))

imm_u-bits : (w i : ℕ) → i < 64 → test_bit (imm_u w) i ≡ from_u w i
unfolding imm_u
imm_u-bits w i h = ground (
  arith,
  test_bit-sext (bit_and w 0xfffff000) 32 i,
  test_bit-and w 0xfffff000 i,
  test_bit-and w 0xfffff000 31,
  upper-bit i,
  upper-bit 31,
)

imm_b-bits : (w i : ℕ) → i < 64 → test_bit (imm_b w) i ≡ from_b w i
unfolding imm_b
imm_b-bits w i h =
    let a = bits w 31 31 <<< 12 in
    let b = bits w 30 25 <<< 5 in
    let c = bits w 11 8 <<< 1 in
    let d = bits w 7 7 <<< 11 in
    let or_bits : (j : ℕ)
        → test_bit (bit_or (bit_or (bit_or a b) c) d) j
          ≡ (test_bit a j || (test_bit b j || (test_bit c j || test_bit d j))) =
      λ j. ground (
        arith,
        test_bit-or (bit_or (bit_or a b) c) d j,
        test_bit-or (bit_or a b) c j,
        test_bit-or a b j,
      ) in
    ground (
      arith,
      test_bit-sext (bit_or (bit_or (bit_or a b) c) d) 13 i,
      or_bits i,
      or_bits 12,
      field-bit w 31 31 12 i,
      field-bit w 30 25 5 i,
      field-bit w 11 8 1 i,
      field-bit w 7 7 11 i,
      field-bit w 31 31 12 12,
      field-bit w 30 25 5 12,
      field-bit w 11 8 1 12,
      field-bit w 7 7 11 12,
    )

imm_j-bits : (w i : ℕ) → i < 64 → test_bit (imm_j w) i ≡ from_j w i
unfolding imm_j
imm_j-bits w i h =
    let a = bits w 31 31 <<< 20 in
    let b = bits w 30 21 <<< 1 in
    let c = bits w 20 20 <<< 11 in
    let d = bits w 19 12 <<< 12 in
    let or_bits : (j : ℕ)
        → test_bit (bit_or (bit_or (bit_or a b) c) d) j
          ≡ (test_bit a j || (test_bit b j || (test_bit c j || test_bit d j))) =
      λ j. ground (
        arith,
        test_bit-or (bit_or (bit_or a b) c) d j,
        test_bit-or (bit_or a b) c j,
        test_bit-or a b j,
      ) in
    ground (
      arith,
      test_bit-sext (bit_or (bit_or (bit_or a b) c) d) 21 i,
      or_bits i,
      or_bits 20,
      field-bit w 31 31 20 i,
      field-bit w 30 21 1 i,
      field-bit w 20 20 11 i,
      field-bit w 19 12 12 i,
      field-bit w 31 31 20 20,
      field-bit w 30 21 1 20,
      field-bit w 20 20 11 20,
      field-bit w 19 12 12 20,
    )

csr-bit : (w i : ℕ) → i < 64 → test_bit (uext (bits w 19 15) 5) i ≡ (ltb i 5 && test_bit w (i + 15))
unfolding uext
csr-bit w i h = ground (
  arith,
  test_bit-shr 59 (bits w 19 15 <<< 59) i,
  test_bit-shl64 (bits w 19 15) 59 (i + 59),
  test_bit-bits w 19 15 (i + 59 - 59),
)

if-bit :
    (b : Bool) (x y : ℕ) (p q : Bool) (i : ℕ)
    → test_bit x i ≡ p
    → test_bit y i ≡ q
    → test_bit (if b then x else y) i ≡ (if b then p else q)
if-bit true x y p q i h h' = h
if-bit false x y p q i h h' = h'

-- Where the immediate of an opcode comes from.
abbrev pub from_opcode : ℕ → ℕ → ℕ → Bool
from_opcode w opcode i =
    if opcode == opcode_load
      || (opcode == opcode_op_imm || (opcode == opcode_op_imm_32 || opcode == opcode_jalr))
    then from_i w i
    else if opcode == opcode_auipc || opcode == opcode_lui
    then from_u w i
    else if opcode == opcode_store
    then from_s w i
    else if opcode == opcode_jal
    then from_j w i
    else if opcode == opcode_branch
    then from_b w i
    else if opcode == opcode_system
    then ltb i 5 && test_bit w (i + 15)
    else false

-- Each of the 64 bits of the immediate that is decoded is the bit of the instruction that the format of the
-- opcode names: formats I, S, B, U and J with the sign bit 31 repeated above, the zero-extended 5-bit field of
-- the CSR instructions, and 0 for the other opcodes.
pub decode_imm-bits :
    (w opcode i : ℕ) → i < 64 → test_bit (decode_imm w opcode) i ≡ from_opcode w opcode i
unfolding decode_imm
decode_imm-bits w opcode i h = if-bit _ _ _ _ _ i (imm_i-bits w i h) (
    if-bit _ _ _ _ _ i (imm_u-bits w i h) (
      if-bit _ _ _ _ _ i (imm_s-bits w i h) (
        if-bit _ _ _ _ _ i (imm_j-bits w i h) (
          if-bit _ _ _ _ _ i (imm_b-bits w i h)
            (if-bit _ _ _ _ _ i (csr-bit w i h) (test_bit-zero i))))))
