-- ===== src/Cpu/Decode.antt =====
-- `decode_imm` and `decode` of emulator/src/cpu/cpu.c.
use tiny_linux_rv.Prelude.{ℕ, bit_and, bit_or, ◌||◌, ◌==◌, if◌then◌else◌}
use tiny_linux_rv.Word.{u8, ◌<<<◌}
use tiny_linux_rv.Cpu.Arith.{bits, sext, uext}
use tiny_linux_rv.Cpu.Dispatch.{
  opcode_lui, opcode_auipc, opcode_jal, opcode_jalr, opcode_branch, opcode_load, opcode_store,
  opcode_op_imm, opcode_op_imm_32, opcode_system,
}

pub record InstDec : Type 0 where
  pub opcode : ℕ
  pub rs1 : ℕ
  pub rs2 : ℕ
  pub rd : ℕ
  pub imm : ℕ
  pub csr : ℕ

unfoldable pub imm_i : ℕ → ℕ
imm_i i = sext (bits i 31 20) 12

unfoldable pub imm_s : ℕ → ℕ
imm_s i = sext (bit_or (bits i 11 7) (bits i 31 25 <<< 5)) 12

unfoldable pub imm_b : ℕ → ℕ
imm_b i =
    sext
      (bit_or (bit_or (bit_or (bits i 31 31 <<< 12) (bits i 30 25 <<< 5)) (bits i 11 8 <<< 1))
        (bits i 7 7 <<< 11))
      13

unfoldable pub imm_u : ℕ → ℕ
imm_u i = sext (bit_and i 0xfffff000) 32

unfoldable pub imm_j : ℕ → ℕ
imm_j i =
    sext
      (bit_or (bit_or (bit_or (bits i 31 31 <<< 20) (bits i 30 21 <<< 1)) (bits i 20 20 <<< 11))
        (bits i 19 12 <<< 12))
      21

unfoldable pub decode_imm : ℕ → ℕ → ℕ
decode_imm inst opcode =
    if opcode == opcode_load
      || (opcode == opcode_op_imm || (opcode == opcode_op_imm_32 || opcode == opcode_jalr))
    then imm_i inst
    else if opcode == opcode_auipc || opcode == opcode_lui
    then imm_u inst
    else if opcode == opcode_store
    then imm_s inst
    else if opcode == opcode_jal
    then imm_j inst
    else if opcode == opcode_branch
    then imm_b inst
    else if opcode == opcode_system
    then uext (bits inst 19 15) 5
    else 0

unfoldable pub decode : ℕ → InstDec
decode inst = record {
  opcode = u8 (bits inst 6 0);
  rs1 = u8 (bits inst 19 15);
  rs2 = u8 (bits inst 24 20);
  rd = u8 (bits inst 11 7);
  imm = decode_imm inst (u8 (bits inst 6 0));
  csr = bits inst 31 20;
}
