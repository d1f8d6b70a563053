-- ===== src/Cpu/Operate.antt =====
-- What the register instructions and the branches of emulator/src/cpu/cpu.c compute: the expressions of the
-- INSTPAT lines, from RS1(), RS2() and IMM().
use tiny_linux_rv.Prelude.{
  ℕ, ◌+◌, ◌*◌, ◌^◌, bit_and, bit_or, bit_xor, Bool, not, ltb, ◌==◌, to_num, if◌then◌else◌,
}
use tiny_linux_rv.Word.{u32, u64, sub64, ◌>>>◌, ◌<<<◌}
use tiny_linux_rv.Cpu.Int.{to_int, of_int, lt_int, shr_int}
use tiny_linux_rv.Cpu.Arith.{
  sext, mulh, mulhu, mulhsu, mulw, div, divu, rem, remu, divw, divuw, remw, remuw,
}
use tiny_linux_rv.Cpu.Inst.{
  ImmOp, RegOp, MulOp, BranchOp, AmoOp, Width, width_w, width_d, inst_addi, inst_slti, inst_sltiu,
  inst_xori, inst_ori, inst_andi, inst_slli, inst_srli, inst_srai, inst_addiw, inst_slliw,
  inst_srliw, inst_sraiw, inst_add, inst_sub, inst_sll, inst_slt, inst_sltu, inst_xor, inst_srl,
  inst_sra, inst_or, inst_and, inst_addw, inst_subw, inst_sllw, inst_srlw, inst_sraw, inst_mul,
  inst_mulh, inst_mulhsu, inst_mulhu, inst_div, inst_divu, inst_rem, inst_remu, inst_mulw,
  inst_divw, inst_divuw, inst_remw, inst_remuw, inst_beq, inst_bne, inst_blt, inst_bge, inst_bltu,
  inst_bgeu, inst_amoswap, inst_amoadd, inst_amoxor, inst_amoand, inst_amoor, inst_amomin,
  inst_amomax, inst_amominu, inst_amomaxu,
}

-- `(int64_t)a < (int64_t)b`, `(int64_t)a >> k`, and the same on `int32_t`.
abbrev pub slt64 : ℕ → ℕ → Bool
slt64 a b = lt_int (to_int 64 a) (to_int 64 b)

abbrev pub slt32 : ℕ → ℕ → Bool
slt32 a b = lt_int (to_int 32 (u32 a)) (to_int 32 (u32 b))

abbrev pub sra64 : ℕ → ℕ → ℕ
sra64 a k = of_int 64 (shr_int (to_int 64 a) k)

abbrev pub sra32 : ℕ → ℕ → ℕ
sra32 a k = of_int 32 (shr_int (to_int 32 (u32 a)) k)

-- `(uint32_t)a << k`
abbrev pub shl32 : ℕ → ℕ → ℕ
shl32 a k = u32 (u32 a * 2 ^ k)

unfoldable pub imm_value : ImmOp → ℕ → ℕ → ℕ
imm_value inst_addi rs1 imm = u64 (rs1 + imm)
imm_value inst_slti rs1 imm = to_num (slt64 rs1 imm)
imm_value inst_sltiu rs1 imm = to_num (ltb rs1 imm)
imm_value inst_xori rs1 imm = bit_xor rs1 imm
imm_value inst_ori rs1 imm = bit_or rs1 imm
imm_value inst_andi rs1 imm = bit_and rs1 imm
imm_value inst_slli rs1 imm = rs1 <<< bit_and imm 0x3f
imm_value inst_srli rs1 imm = rs1 >>> bit_and imm 0x3f
imm_value inst_srai rs1 imm = sra64 rs1 (bit_and imm 0x3f)
imm_value inst_addiw rs1 imm = sext (u64 (rs1 + imm)) 32
imm_value inst_slliw rs1 imm = sext (shl32 rs1 (bit_and imm 0x1f)) 32
imm_value inst_srliw rs1 imm = sext (u32 rs1 >>> bit_and imm 0x1f) 32
imm_value inst_sraiw rs1 imm = sext (sra32 rs1 (bit_and imm 0x1f)) 32

unfoldable pub reg_value : RegOp → ℕ → ℕ → ℕ
reg_value inst_add rs1 rs2 = u64 (rs1 + rs2)
reg_value inst_sub rs1 rs2 = sub64 rs1 rs2
reg_value inst_sll rs1 rs2 = rs1 <<< bit_and rs2 0x3f
reg_value inst_slt rs1 rs2 = to_num (slt64 rs1 rs2)
reg_value inst_sltu rs1 rs2 = to_num (ltb rs1 rs2)
reg_value inst_xor rs1 rs2 = bit_xor rs1 rs2
reg_value inst_srl rs1 rs2 = rs1 >>> bit_and rs2 0x3f
reg_value inst_sra rs1 rs2 = sra64 rs1 (bit_and rs2 0x3f)
reg_value inst_or rs1 rs2 = bit_or rs1 rs2
reg_value inst_and rs1 rs2 = bit_and rs1 rs2
reg_value inst_addw rs1 rs2 = sext (u64 (rs1 + rs2)) 32
reg_value inst_subw rs1 rs2 = sext (sub64 rs1 rs2) 32
reg_value inst_sllw rs1 rs2 = sext (shl32 rs1 (bit_and rs2 0x1f)) 32
reg_value inst_srlw rs1 rs2 = sext (u32 rs1 >>> bit_and rs2 0x1f) 32
reg_value inst_sraw rs1 rs2 = sext (sra32 rs1 (bit_and rs2 0x1f)) 32

unfoldable pub muldiv_value : MulOp → ℕ → ℕ → ℕ
muldiv_value inst_mul rs1 rs2 = u64 (rs1 * rs2)
muldiv_value inst_mulh rs1 rs2 = mulh rs1 rs2
muldiv_value inst_mulhsu rs1 rs2 = mulhsu rs1 rs2
muldiv_value inst_mulhu rs1 rs2 = mulhu rs1 rs2
muldiv_value inst_div rs1 rs2 = div rs1 rs2
muldiv_value inst_divu rs1 rs2 = divu rs1 rs2
muldiv_value inst_rem rs1 rs2 = rem rs1 rs2
muldiv_value inst_remu rs1 rs2 = remu rs1 rs2
muldiv_value inst_mulw rs1 rs2 = mulw rs1 rs2
muldiv_value inst_divw rs1 rs2 = divw rs1 rs2
muldiv_value inst_divuw rs1 rs2 = divuw rs1 rs2
muldiv_value inst_remw rs1 rs2 = remw rs1 rs2
muldiv_value inst_remuw rs1 rs2 = remuw rs1 rs2

unfoldable pub branch_taken : BranchOp → ℕ → ℕ → Bool
branch_taken inst_beq rs1 rs2 = rs1 == rs2
branch_taken inst_bne rs1 rs2 = not (rs1 == rs2)
branch_taken inst_blt rs1 rs2 = slt64 rs1 rs2
branch_taken inst_bge rs1 rs2 = not (slt64 rs1 rs2)
branch_taken inst_bltu rs1 rs2 = ltb rs1 rs2
branch_taken inst_bgeu rs1 rs2 = not (ltb rs1 rs2)

-- CMP64U, CMP32U, CMP64S and CMP32S with `<`; with `>` the arguments of the test are exchanged.
abbrev pub choose : Bool → ℕ → ℕ → ℕ
choose c a b = if c then a else b

unfoldable pub amo_value : AmoOp → Width → ℕ → ℕ → ℕ
amo_value inst_amoswap w src value = src
amo_value inst_amoadd w src value = u64 (src + value)
amo_value inst_amoand w src value = bit_and src value
amo_value inst_amoor w src value = bit_or src value
amo_value inst_amoxor w src value = bit_xor src value
amo_value inst_amomaxu width_d src value = choose (ltb value src) src value
amo_value inst_amomaxu width_w src value = sext (choose (ltb (u32 value) (u32 src)) src value) 32
amo_value inst_amomax width_d src value = choose (slt64 value src) src value
amo_value inst_amomax width_w src value = sext (choose (slt32 value src) src value) 32
amo_value inst_amominu width_d src value = choose (ltb src value) src value
amo_value inst_amominu width_w src value = sext (choose (ltb (u32 src) (u32 value)) src value) 32
amo_value inst_amomin width_d src value = choose (slt64 src value) src value
amo_value inst_amomin width_w src value = sext (choose (slt32 src value) src value) 32
