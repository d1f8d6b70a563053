-- ===== src/Cpu/Patterns.antt =====
-- The patterns of emulator/include/cpu/decode.h: MASK and GOLDEN of each instruction.
use tiny_linux_rv.Prelude.{ℕ}
use tiny_linux_rv.Cpu.Inst.{
  ImmOp, RegOp, LoadOp, StoreOp, BranchOp, MulOp, CsrInst, SysOp, inst_addi, inst_slti, inst_sltiu,
  inst_xori, inst_ori, inst_andi, inst_slli, inst_srli, inst_srai, inst_addiw, inst_slliw,
  inst_srliw, inst_sraiw, inst_add, inst_sub, inst_sll, inst_slt, inst_sltu, inst_xor, inst_srl,
  inst_sra, inst_or, inst_and, inst_addw, inst_subw, inst_sllw, inst_srlw, inst_sraw, inst_lb,
  inst_lh, inst_lw, inst_lbu, inst_lhu, inst_lwu, inst_ld, inst_sb, inst_sh, inst_sw, inst_sd,
  inst_beq, inst_bne, inst_blt, inst_bge, inst_bltu, inst_bgeu, inst_mul, inst_mulh, inst_mulhsu,
  inst_mulhu, inst_div, inst_divu, inst_rem, inst_remu, inst_mulw, inst_divw, inst_divuw, inst_remw,
  inst_remuw, inst_csrrw, inst_csrrs, inst_csrrc, inst_csrrwi, inst_csrrsi, inst_csrrci, inst_ecall,
  inst_ebreak, inst_sret, inst_mret, inst_wfi, inst_sfence_vma, AmoOp, inst_amoswap, inst_amoadd,
  inst_amoxor, inst_amoand, inst_amoor, inst_amomin, inst_amomax, inst_amominu, inst_amomaxu,
  width_w, width_d, Inst, inst_lui, inst_auipc, inst_jal, inst_jalr, inst_fence, inst_fencei, imm,
  reg, load, store, branch, muldiv, csr_inst, sys, lr, sc, amo,
}

-- MASK and GOLDEN of an instruction.
pub record Pattern : Type 0 where
  pub mask : ℕ
  pub golden : ℕ

abbrev pub pattern_of : ℕ → ℕ → Pattern
pattern_of m g = record { mask = m; golden = g }

abbrev pub imm_pattern : ImmOp → Pattern
imm_pattern inst_addi = pattern_of 0x0000707f 0x00000013
imm_pattern inst_slti = pattern_of 0x0000707f 0x00002013
imm_pattern inst_sltiu = pattern_of 0x0000707f 0x00003013
imm_pattern inst_xori = pattern_of 0x0000707f 0x00004013
imm_pattern inst_ori = pattern_of 0x0000707f 0x00006013
imm_pattern inst_andi = pattern_of 0x0000707f 0x00007013
imm_pattern inst_slli = pattern_of 0xfc00707f 0x00001013
imm_pattern inst_srli = pattern_of 0xfc00707f 0x00005013
imm_pattern inst_srai = pattern_of 0xfc00707f 0x40005013
imm_pattern inst_addiw = pattern_of 0x0000707f 0x0000001b
imm_pattern inst_slliw = pattern_of 0xfe00707f 0x0000101b
imm_pattern inst_srliw = pattern_of 0xfe00707f 0x0000501b
imm_pattern inst_sraiw = pattern_of 0xfe00707f 0x4000501b

abbrev pub reg_pattern : RegOp → Pattern
reg_pattern inst_add = pattern_of 0xfe00707f 0x00000033
reg_pattern inst_sub = pattern_of 0xfe00707f 0x40000033
reg_pattern inst_sll = pattern_of 0xfe00707f 0x00001033
reg_pattern inst_slt = pattern_of 0xfe00707f 0x00002033
reg_pattern inst_sltu = pattern_of 0xfe00707f 0x00003033
reg_pattern inst_xor = pattern_of 0xfe00707f 0x00004033
reg_pattern inst_srl = pattern_of 0xfe00707f 0x00005033
reg_pattern inst_sra = pattern_of 0xfe00707f 0x40005033
reg_pattern inst_or = pattern_of 0xfe00707f 0x00006033
reg_pattern inst_and = pattern_of 0xfe00707f 0x00007033
reg_pattern inst_addw = pattern_of 0xfe00707f 0x0000003b
reg_pattern inst_subw = pattern_of 0xfe00707f 0x4000003b
reg_pattern inst_sllw = pattern_of 0xfe00707f 0x0000103b
reg_pattern inst_srlw = pattern_of 0xfe00707f 0x0000503b
reg_pattern inst_sraw = pattern_of 0xfe00707f 0x4000503b

abbrev pub load_pattern : LoadOp → Pattern
load_pattern inst_lb = pattern_of 0x0000707f 0x00000003
load_pattern inst_lh = pattern_of 0x0000707f 0x00001003
load_pattern inst_lw = pattern_of 0x0000707f 0x00002003
load_pattern inst_lbu = pattern_of 0x0000707f 0x00004003
load_pattern inst_lhu = pattern_of 0x0000707f 0x00005003
load_pattern inst_lwu = pattern_of 0x0000707f 0x00006003
load_pattern inst_ld = pattern_of 0x0000707f 0x00003003

abbrev pub store_pattern : StoreOp → Pattern
store_pattern inst_sb = pattern_of 0x0000707f 0x00000023
store_pattern inst_sh = pattern_of 0x0000707f 0x00001023
store_pattern inst_sw = pattern_of 0x0000707f 0x00002023
store_pattern inst_sd = pattern_of 0x0000707f 0x00003023

abbrev pub branch_pattern : BranchOp → Pattern
branch_pattern inst_beq = pattern_of 0x0000707f 0x00000063
branch_pattern inst_bne = pattern_of 0x0000707f 0x00001063
branch_pattern inst_blt = pattern_of 0x0000707f 0x00004063
branch_pattern inst_bge = pattern_of 0x0000707f 0x00005063
branch_pattern inst_bltu = pattern_of 0x0000707f 0x00006063
branch_pattern inst_bgeu = pattern_of 0x0000707f 0x00007063

abbrev pub muldiv_pattern : MulOp → Pattern
muldiv_pattern inst_mul = pattern_of 0xfe00707f 0x02000033
muldiv_pattern inst_mulh = pattern_of 0xfe00707f 0x02001033
muldiv_pattern inst_mulhsu = pattern_of 0xfe00707f 0x02002033
muldiv_pattern inst_mulhu = pattern_of 0xfe00707f 0x02003033
muldiv_pattern inst_div = pattern_of 0xfe00707f 0x02004033
muldiv_pattern inst_divu = pattern_of 0xfe00707f 0x02005033
muldiv_pattern inst_rem = pattern_of 0xfe00707f 0x02006033
muldiv_pattern inst_remu = pattern_of 0xfe00707f 0x02007033
muldiv_pattern inst_mulw = pattern_of 0xfe00707f 0x0200003b
muldiv_pattern inst_divw = pattern_of 0xfe00707f 0x0200403b
muldiv_pattern inst_divuw = pattern_of 0xfe00707f 0x0200503b
muldiv_pattern inst_remw = pattern_of 0xfe00707f 0x0200603b
muldiv_pattern inst_remuw = pattern_of 0xfe00707f 0x0200703b

abbrev pub csr_pattern : CsrInst → Pattern
csr_pattern inst_csrrw = pattern_of 0x0000707f 0x00001073
csr_pattern inst_csrrs = pattern_of 0x0000707f 0x00002073
csr_pattern inst_csrrc = pattern_of 0x0000707f 0x00003073
csr_pattern inst_csrrwi = pattern_of 0x0000707f 0x00005073
csr_pattern inst_csrrsi = pattern_of 0x0000707f 0x00006073
csr_pattern inst_csrrci = pattern_of 0x0000707f 0x00007073

abbrev pub sys_pattern : SysOp → Pattern
sys_pattern inst_ecall = pattern_of 0xffffffff 0x00000073
sys_pattern inst_ebreak = pattern_of 0xffffffff 0x00100073
sys_pattern inst_sret = pattern_of 0xffffffff 0x10200073
sys_pattern inst_mret = pattern_of 0xffffffff 0x30200073
sys_pattern inst_wfi = pattern_of 0xffffffff 0x10500073
sys_pattern inst_sfence_vma = pattern_of 0xfe007fff 0x12000073

abbrev pub amo_w_pattern : AmoOp → Pattern
amo_w_pattern inst_amoswap = pattern_of 0xf800707f 0x0800202f
amo_w_pattern inst_amoadd = pattern_of 0xf800707f 0x0000202f
amo_w_pattern inst_amoxor = pattern_of 0xf800707f 0x2000202f
amo_w_pattern inst_amoand = pattern_of 0xf800707f 0x6000202f
amo_w_pattern inst_amoor = pattern_of 0xf800707f 0x4000202f
amo_w_pattern inst_amomin = pattern_of 0xf800707f 0x8000202f
amo_w_pattern inst_amomax = pattern_of 0xf800707f 0xa000202f
amo_w_pattern inst_amominu = pattern_of 0xf800707f 0xc000202f
amo_w_pattern inst_amomaxu = pattern_of 0xf800707f 0xe000202f

abbrev pub amo_d_pattern : AmoOp → Pattern
amo_d_pattern inst_amoswap = pattern_of 0xf800707f 0x0800302f
amo_d_pattern inst_amoadd = pattern_of 0xf800707f 0x0000302f
amo_d_pattern inst_amoxor = pattern_of 0xf800707f 0x2000302f
amo_d_pattern inst_amoand = pattern_of 0xf800707f 0x6000302f
amo_d_pattern inst_amoor = pattern_of 0xf800707f 0x4000302f
amo_d_pattern inst_amomin = pattern_of 0xf800707f 0x8000302f
amo_d_pattern inst_amomax = pattern_of 0xf800707f 0xa000302f
amo_d_pattern inst_amominu = pattern_of 0xf800707f 0xc000302f
amo_d_pattern inst_amomaxu = pattern_of 0xf800707f 0xe000302f

abbrev pub inst_pattern : Inst → Pattern
inst_pattern inst_lui = pattern_of 0x0000007f 0x00000037
inst_pattern inst_auipc = pattern_of 0x0000007f 0x00000017
inst_pattern inst_jal = pattern_of 0x0000007f 0x0000006f
inst_pattern inst_jalr = pattern_of 0x0000707f 0x00000067
inst_pattern inst_fence = pattern_of 0x0000707f 0x0000000f
inst_pattern inst_fencei = pattern_of 0x0000707f 0x0000100f
inst_pattern (imm op) = imm_pattern op
inst_pattern (reg op) = reg_pattern op
inst_pattern (load op) = load_pattern op
inst_pattern (store op) = store_pattern op
inst_pattern (branch op) = branch_pattern op
inst_pattern (muldiv op) = muldiv_pattern op
inst_pattern (csr_inst op) = csr_pattern op
inst_pattern (sys op) = sys_pattern op
inst_pattern (lr width_w) = pattern_of 0xf9f0707f 0x1000202f
inst_pattern (lr width_d) = pattern_of 0xf9f0707f 0x1000302f
inst_pattern (sc width_w) = pattern_of 0xf800707f 0x1800202f
inst_pattern (sc width_d) = pattern_of 0xf800707f 0x1800302f
inst_pattern (amo op width_w) = amo_w_pattern op
inst_pattern (amo op width_d) = amo_d_pattern op
