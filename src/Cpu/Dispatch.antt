-- ===== src/Cpu/Dispatch.antt =====
-- The switch of `cpu_step` in emulator/src/cpu/cpu.c as far as it chooses the instruction: by the opcode,
-- then by the first pattern that matches.
use tiny_linux_rv.Prelude.{ℕ, bit_and, Bool, Option, none, some, List, [], ◌∷◌, ◌==◌, if◌then◌else◌}
use tiny_linux_rv.Cpu.Arith.{bits}
use tiny_linux_rv.Cpu.Inst.{
  inst_addi, inst_slti, inst_sltiu, inst_xori, inst_ori, inst_andi, inst_slli, inst_srli, inst_srai,
  inst_addiw, inst_slliw, inst_srliw, inst_sraiw, inst_add, inst_sub, inst_sll, inst_slt, inst_sltu,
  inst_xor, inst_srl, inst_sra, inst_or, inst_and, inst_addw, inst_subw, inst_sllw, inst_srlw,
  inst_sraw, inst_lb, inst_lh, inst_lw, inst_lbu, inst_lhu, inst_lwu, inst_ld, inst_sb, inst_sh,
  inst_sw, inst_sd, inst_beq, inst_bne, inst_blt, inst_bge, inst_bltu, inst_bgeu, inst_mul,
  inst_mulh, inst_mulhsu, inst_mulhu, inst_div, inst_divu, inst_rem, inst_remu, inst_mulw,
  inst_divw, inst_divuw, inst_remw, inst_remuw, inst_csrrw, inst_csrrs, inst_csrrc, inst_csrrwi,
  inst_csrrsi, inst_csrrci, inst_ecall, inst_ebreak, inst_sret, inst_mret, inst_wfi,
  inst_sfence_vma, inst_amoswap, inst_amoadd, inst_amoxor, inst_amoand, inst_amoor, inst_amomin,
  inst_amomax, inst_amominu, inst_amomaxu, width_w, width_d, Inst, inst_lui, inst_auipc, inst_jal,
  inst_jalr, inst_fence, inst_fencei, imm, reg, load, store, branch, muldiv, csr_inst, sys, lr, sc,
  amo,
}
use tiny_linux_rv.Cpu.Patterns.{inst_pattern}

abbrev pub opcode_lui : ℕ
opcode_lui = 0x37

abbrev pub opcode_auipc : ℕ
opcode_auipc = 0x17

abbrev pub opcode_jal : ℕ
opcode_jal = 0x6f

abbrev pub opcode_jalr : ℕ
opcode_jalr = 0x67

abbrev pub opcode_branch : ℕ
opcode_branch = 0x63

abbrev pub opcode_load : ℕ
opcode_load = 0x03

abbrev pub opcode_store : ℕ
opcode_store = 0x23

abbrev pub opcode_op_imm : ℕ
opcode_op_imm = 0x13

abbrev pub opcode_op_imm_32 : ℕ
opcode_op_imm_32 = 0x1b

abbrev pub opcode_op : ℕ
opcode_op = 0x33

abbrev pub opcode_op_32 : ℕ
opcode_op_32 = 0x3b

abbrev pub opcode_misc_mem : ℕ
opcode_misc_mem = 0x0f

abbrev pub opcode_system : ℕ
opcode_system = 0x73

abbrev pub opcode_amo : ℕ
opcode_amo = 0x2f

-- The INSTPAT lines under each opcode, in their order.
unfoldable pub inst_cases : ℕ → List Inst
inst_cases opcode =
    if opcode == opcode_lui
    then inst_lui ∷ []
    else if opcode == opcode_auipc
    then inst_auipc ∷ []
    else if opcode == opcode_jal
    then inst_jal ∷ []
    else if opcode == opcode_jalr
    then inst_jalr ∷ []
    else if opcode == opcode_branch
    then branch inst_beq
      ∷ branch inst_bne
      ∷ branch inst_blt
      ∷ branch inst_bge
      ∷ branch inst_bltu
      ∷ branch inst_bgeu
      ∷ []
    else if opcode == opcode_load
    then load inst_lb
      ∷ load inst_lh
      ∷ load inst_lw
      ∷ load inst_lbu
      ∷ load inst_lhu
      ∷ load inst_lwu
      ∷ load inst_ld
      ∷ []
    else if opcode == opcode_store
    then store inst_sb ∷ store inst_sh ∷ store inst_sw ∷ store inst_sd ∷ []
    else if opcode == opcode_op_imm
    then imm inst_addi
      ∷ imm inst_slti
      ∷ imm inst_sltiu
      ∷ imm inst_xori
      ∷ imm inst_ori
      ∷ imm inst_andi
      ∷ imm inst_slli
      ∷ imm inst_srli
      ∷ imm inst_srai
      ∷ []
    else if opcode == opcode_op_imm_32
    then imm inst_addiw ∷ imm inst_slliw ∷ imm inst_srliw ∷ imm inst_sraiw ∷ []
    else if opcode == opcode_op
    then reg inst_add
      ∷ reg inst_sub
      ∷ reg inst_sll
      ∷ reg inst_slt
      ∷ reg inst_sltu
      ∷ reg inst_xor
      ∷ reg inst_srl
      ∷ reg inst_sra
      ∷ reg inst_or
      ∷ reg inst_and
      ∷ muldiv inst_mul
      ∷ muldiv inst_mulh
      ∷ muldiv inst_mulhu
      ∷ muldiv inst_mulhsu
      ∷ muldiv inst_div
      ∷ muldiv inst_divu
      ∷ muldiv inst_rem
      ∷ muldiv inst_remu
      ∷ []
    else if opcode == opcode_op_32
    then reg inst_addw
      ∷ reg inst_subw
      ∷ reg inst_sllw
      ∷ reg inst_srlw
      ∷ reg inst_sraw
      ∷ muldiv inst_mulw
      ∷ muldiv inst_divw
      ∷ muldiv inst_divuw
      ∷ muldiv inst_remw
      ∷ muldiv inst_remuw
      ∷ []
    else if opcode == opcode_misc_mem
    then inst_fence ∷ inst_fencei ∷ []
    else if opcode == opcode_system
    then csr_inst inst_csrrw
      ∷ csr_inst inst_csrrs
      ∷ csr_inst inst_csrrc
      ∷ csr_inst inst_csrrwi
      ∷ csr_inst inst_csrrsi
      ∷ csr_inst inst_csrrci
      ∷ sys inst_ecall
      ∷ sys inst_ebreak
      ∷ sys inst_mret
      ∷ sys inst_sret
      ∷ sys inst_wfi
      ∷ sys inst_sfence_vma
      ∷ []
    else if opcode == opcode_amo
    then lr width_d
      ∷ lr width_w
      ∷ sc width_d
      ∷ sc width_w
      ∷ amo inst_amoswap width_d
      ∷ amo inst_amoswap width_w
      ∷ amo inst_amoadd width_d
      ∷ amo inst_amoadd width_w
      ∷ amo inst_amoand width_d
      ∷ amo inst_amoand width_w
      ∷ amo inst_amoor width_d
      ∷ amo inst_amoor width_w
      ∷ amo inst_amoxor width_d
      ∷ amo inst_amoxor width_w
      ∷ amo inst_amomaxu width_d
      ∷ amo inst_amomaxu width_w
      ∷ amo inst_amomax width_d
      ∷ amo inst_amomax width_w
      ∷ amo inst_amominu width_d
      ∷ amo inst_amominu width_w
      ∷ amo inst_amomin width_d
      ∷ amo inst_amomin width_w
      ∷ []
    else []

-- `(inst & MASK) == GOLDEN`
abbrev pub matches : ℕ → Inst → Bool
matches inst i = bit_and inst (inst_pattern i).mask == (inst_pattern i).golden

unfoldable pub first_match : ℕ → List Inst → Option Inst
first_match inst [] = none
first_match inst (i ∷ l) = let rest = first_match inst l in if matches inst i then some i else rest

-- The instruction that a word stands for; `none` is an illegal instruction.
unfoldable pub dispatch : ℕ → Option Inst
dispatch inst = first_match inst (inst_cases (bits inst 6 0))
