-- ===== src/Cpu/Inst.antt =====
-- The instructions that `cpu_step` of emulator/src/cpu/cpu.c tells apart, named as in its INSTPAT lines,
-- grouped by what they do.
pub data ImmOp : Type 0 where
  inst_addi inst_slti inst_sltiu inst_xori inst_ori inst_andi inst_slli inst_srli inst_srai
        inst_addiw inst_slliw inst_srliw inst_sraiw :
      ImmOp

pub data RegOp : Type 0 where
  inst_add inst_sub inst_sll inst_slt inst_sltu inst_xor inst_srl inst_sra inst_or inst_and
        inst_addw inst_subw inst_sllw inst_srlw inst_sraw :
      RegOp

pub data LoadOp : Type 0 where
  inst_lb inst_lh inst_lw inst_lbu inst_lhu inst_lwu inst_ld : LoadOp

pub data StoreOp : Type 0 where
  inst_sb inst_sh inst_sw inst_sd : StoreOp

pub data BranchOp : Type 0 where
  inst_beq inst_bne inst_blt inst_bge inst_bltu inst_bgeu : BranchOp

pub data MulOp : Type 0 where
  inst_mul inst_mulh inst_mulhsu inst_mulhu inst_div inst_divu inst_rem inst_remu inst_mulw
        inst_divw inst_divuw inst_remw inst_remuw :
      MulOp

pub data CsrInst : Type 0 where
  inst_csrrw inst_csrrs inst_csrrc inst_csrrwi inst_csrrsi inst_csrrci : CsrInst

pub data SysOp : Type 0 where
  inst_ecall inst_ebreak inst_sret inst_mret inst_wfi inst_sfence_vma : SysOp

pub data AmoOp : Type 0 where
  inst_amoswap inst_amoadd inst_amoxor inst_amoand inst_amoor inst_amomin inst_amomax inst_amominu
        inst_amomaxu :
      AmoOp

-- The W and D forms of the atomic instructions.
pub data Width : Type 0 where
  width_w width_d : Width

pub data Inst : Type 0 where
  inst_lui inst_auipc inst_jal inst_jalr inst_fence inst_fencei : Inst
  imm : ImmOp → Inst
  reg : RegOp → Inst
  load : LoadOp → Inst
  store : StoreOp → Inst
  branch : BranchOp → Inst
  muldiv : MulOp → Inst
  csr_inst : CsrInst → Inst
  sys : SysOp → Inst
  lr sc : Width → Inst
  amo : AmoOp → Width → Inst
