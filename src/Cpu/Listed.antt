-- ===== src/Cpu/Listed.antt =====
-- Where each pattern of emulator/include/cpu/decode.h stands in the switch of emulator/src/cpu/cpu.c.
use tiny_linux_rv.Prelude.{ℕ, ◌%◌, ◌≡◌, refl, some}
use tiny_linux_rv.Cpu.Inst.{
  inst_addi, inst_slti, inst_sltiu, inst_xori, inst_ori, inst_andi, inst_slli, inst_srli, inst_srai,
  inst_addiw, inst_slliw, inst_srliw, inst_sraiw, inst_add, inst_sub, inst_sll, inst_slt, inst_sltu,
  inst_xor, inst_srl, inst_sra, inst_or, inst_and, inst_addw, inst_subw, inst_sllw, inst_srlw,
  inst_sraw, inst_lb, inst_lh, inst_lw, inst_lbu, inst_lhu, inst_lwu, inst_ld, inst_sb, inst_sh,
  inst_sw, inst_sd, inst_beq, inst_bne, inst_blt, inst_bge, inst_bltu, inst_bgeu, inst_mul,
  inst_mulh, inst_mulhsu, inst_mulhu, inst_div, inst_divu, inst_rem, inst_remu, inst_mulw,
  inst_divw, inst_divuw, inst_remw, inst_remuw, inst_csrrw, inst_csrrs, inst_csrrc, inst_csrrwi,
  inst_csrrsi, inst_csrrci, inst_ecall, inst_ebreak, inst_sret, inst_mret, inst_wfi,
  inst_sfence_vma, inst_amoswap, inst_amoadd, inst_amoxor, inst_amoand, inst_amoor, inst_amomin,
  inst_amomax, inst_amominu, inst_amomaxu, width_w, width_d, Inst, inst_lui, inst_auipc, inst_jal,
  inst_jalr, inst_fence, inst_fencei, imm, reg, load, store, branch, muldiv, csr_inst, sys, lr, sc,
  amo,
}
use tiny_linux_rv.Cpu.Patterns.{inst_pattern}
use tiny_linux_rv.Cpu.Dispatch.{inst_cases}
use tiny_linux_rv.Cpu.Unique.{nth}

-- An instruction stands under the opcode of its golden value, and its mask covers the opcode.
pub listed :
    (i : Inst)
    → (n : ℕ) × (nth (inst_cases ((inst_pattern i).golden % 128)) n ≡ some i)
      × ((inst_pattern i).mask % 128 ≡ 127)
unfolding nth inst_cases
listed (imm inst_addi) = (0, refl, refl)
listed (imm inst_slti) = (1, refl, refl)
listed (imm inst_sltiu) = (2, refl, refl)
listed (imm inst_xori) = (3, refl, refl)
listed (imm inst_ori) = (4, refl, refl)
listed (imm inst_andi) = (5, refl, refl)
listed (imm inst_slli) = (6, refl, refl)
listed (imm inst_srli) = (7, refl, refl)
listed (imm inst_srai) = (8, refl, refl)
listed (imm inst_addiw) = (0, refl, refl)
listed (imm inst_slliw) = (1, refl, refl)
listed (imm inst_srliw) = (2, refl, refl)
listed (imm inst_sraiw) = (3, refl, refl)
listed (reg inst_add) = (0, refl, refl)
listed (reg inst_sub) = (1, refl, refl)
listed (reg inst_sll) = (2, refl, refl)
listed (reg inst_slt) = (3, refl, refl)
listed (reg inst_sltu) = (4, refl, refl)
listed (reg inst_xor) = (5, refl, refl)
listed (reg inst_srl) = (6, refl, refl)
listed (reg inst_sra) = (7, refl, refl)
listed (reg inst_or) = (8, refl, refl)
listed (reg inst_and) = (9, refl, refl)
listed (reg inst_addw) = (0, refl, refl)
listed (reg inst_subw) = (1, refl, refl)
listed (reg inst_sllw) = (2, refl, refl)
listed (reg inst_srlw) = (3, refl, refl)
listed (reg inst_sraw) = (4, refl, refl)
listed (inst_lui) = (0, refl, refl)
listed (inst_auipc) = (0, refl, refl)
listed (load inst_lb) = (0, refl, refl)
listed (load inst_lh) = (1, refl, refl)
listed (load inst_lw) = (2, refl, refl)
listed (load inst_lbu) = (3, refl, refl)
listed (load inst_lhu) = (4, refl, refl)
listed (load inst_lwu) = (5, refl, refl)
listed (load inst_ld) = (6, refl, refl)
listed (store inst_sb) = (0, refl, refl)
listed (store inst_sh) = (1, refl, refl)
listed (store inst_sw) = (2, refl, refl)
listed (store inst_sd) = (3, refl, refl)
listed (inst_jal) = (0, refl, refl)
listed (inst_jalr) = (0, refl, refl)
listed (branch inst_beq) = (0, refl, refl)
listed (branch inst_bne) = (1, refl, refl)
listed (branch inst_blt) = (2, refl, refl)
listed (branch inst_bge) = (3, refl, refl)
listed (branch inst_bltu) = (4, refl, refl)
listed (branch inst_bgeu) = (5, refl, refl)
listed (inst_fence) = (0, refl, refl)
listed (inst_fencei) = (1, refl, refl)
listed (sys inst_ecall) = (6, refl, refl)
listed (sys inst_ebreak) = (7, refl, refl)
listed (muldiv inst_mul) = (10, refl, refl)
listed (muldiv inst_mulh) = (11, refl, refl)
listed (muldiv inst_mulhsu) = (13, refl, refl)
listed (muldiv inst_mulhu) = (12, refl, refl)
listed (muldiv inst_div) = (14, refl, refl)
listed (muldiv inst_divu) = (15, refl, refl)
listed (muldiv inst_rem) = (16, refl, refl)
listed (muldiv inst_remu) = (17, refl, refl)
listed (muldiv inst_mulw) = (5, refl, refl)
listed (muldiv inst_divw) = (6, refl, refl)
listed (muldiv inst_divuw) = (7, refl, refl)
listed (muldiv inst_remw) = (8, refl, refl)
listed (muldiv inst_remuw) = (9, refl, refl)
listed (lr width_w) = (1, refl, refl)
listed (sc width_w) = (3, refl, refl)
listed (amo inst_amoswap width_w) = (5, refl, refl)
listed (amo inst_amoadd width_w) = (7, refl, refl)
listed (amo inst_amoxor width_w) = (13, refl, refl)
listed (amo inst_amoand width_w) = (9, refl, refl)
listed (amo inst_amoor width_w) = (11, refl, refl)
listed (amo inst_amomin width_w) = (21, refl, refl)
listed (amo inst_amomax width_w) = (17, refl, refl)
listed (amo inst_amominu width_w) = (19, refl, refl)
listed (amo inst_amomaxu width_w) = (15, refl, refl)
listed (lr width_d) = (0, refl, refl)
listed (sc width_d) = (2, refl, refl)
listed (amo inst_amoswap width_d) = (4, refl, refl)
listed (amo inst_amoadd width_d) = (6, refl, refl)
listed (amo inst_amoxor width_d) = (12, refl, refl)
listed (amo inst_amoand width_d) = (8, refl, refl)
listed (amo inst_amoor width_d) = (10, refl, refl)
listed (amo inst_amomin width_d) = (20, refl, refl)
listed (amo inst_amomax width_d) = (16, refl, refl)
listed (amo inst_amominu width_d) = (18, refl, refl)
listed (amo inst_amomaxu width_d) = (14, refl, refl)
listed (csr_inst inst_csrrw) = (0, refl, refl)
listed (csr_inst inst_csrrs) = (1, refl, refl)
listed (csr_inst inst_csrrc) = (2, refl, refl)
listed (csr_inst inst_csrrwi) = (3, refl, refl)
listed (csr_inst inst_csrrsi) = (4, refl, refl)
listed (csr_inst inst_csrrci) = (5, refl, refl)
listed (sys inst_sret) = (9, refl, refl)
listed (sys inst_mret) = (8, refl, refl)
listed (sys inst_wfi) = (10, refl, refl)
listed (sys inst_sfence_vma) = (11, refl, refl)
