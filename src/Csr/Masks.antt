-- ===== src/Csr/Masks.antt =====
-- The bit positions and masks that emulator/src/cpu/csr.c defines.
use tiny_linux_rv.Prelude.{ℕ, ◌-◌, ◌*◌, ◌^◌, bit_or}

abbrev pub csr_bit : ℕ → ℕ
csr_bit pos = 2 ^ pos

abbrev pub csr_field_mask : ℕ → ℕ → ℕ
csr_field_mask pos width = (2 ^ width - 1) * 2 ^ pos

infixr 60 ◌|||◌
abbrev pub ◌|||◌ : ℕ → ℕ → ℕ
◌|||◌ = bit_or

-- MSTATUS_SIE_POS and so on.
abbrev pub sie_pos : ℕ
sie_pos = 1

abbrev pub mie_pos : ℕ
mie_pos = 3

abbrev pub spie_pos : ℕ
spie_pos = 5

abbrev pub mpie_pos : ℕ
mpie_pos = 7

abbrev pub spp_pos : ℕ
spp_pos = 8

abbrev pub mpp_pos : ℕ
mpp_pos = 11

abbrev pub mprv_pos : ℕ
mprv_pos = 17

abbrev pub sum_pos : ℕ
sum_pos = 18

abbrev pub mxr_pos : ℕ
mxr_pos = 19

abbrev pub tvm_pos : ℕ
tvm_pos = 20

abbrev pub tw_pos : ℕ
tw_pos = 21

abbrev pub tsr_pos : ℕ
tsr_pos = 22

abbrev pub uxl_pos : ℕ
uxl_pos = 32

abbrev pub sxl_pos : ℕ
sxl_pos = 34

abbrev pub mstatus_write_mask : ℕ
mstatus_write_mask =
    csr_bit sie_pos
    ||| csr_bit mie_pos
    ||| csr_bit spie_pos
    ||| csr_bit mpie_pos
    ||| csr_bit spp_pos
    ||| csr_field_mask mpp_pos 2
    ||| csr_bit mprv_pos
    ||| csr_bit sum_pos
    ||| csr_bit mxr_pos
    ||| csr_bit tvm_pos
    ||| csr_bit tw_pos
    ||| csr_bit tsr_pos

abbrev pub sstatus_read_mask : ℕ
sstatus_read_mask =
    csr_bit sie_pos
    ||| csr_bit spie_pos
    ||| csr_bit spp_pos
    ||| csr_bit sum_pos
    ||| csr_bit mxr_pos
    ||| csr_field_mask uxl_pos 2

abbrev pub sstatus_write_mask : ℕ
sstatus_write_mask =
    csr_bit sie_pos ||| csr_bit spie_pos ||| csr_bit spp_pos ||| csr_bit sum_pos ||| csr_bit mxr_pos

-- The interrupt codes of emulator/include/cpu/riscv.h.
abbrev pub int_ssip : ℕ
int_ssip = 1

abbrev pub int_msip : ℕ
int_msip = 3

abbrev pub int_stip : ℕ
int_stip = 5

abbrev pub int_mtip : ℕ
int_mtip = 7

abbrev pub int_seip : ℕ
int_seip = 9

abbrev pub int_meip : ℕ
int_meip = 11

abbrev pub int_s_mask : ℕ
int_s_mask = csr_bit int_ssip ||| csr_bit int_stip ||| csr_bit int_seip

abbrev pub int_m_mask : ℕ
int_m_mask = csr_bit int_msip ||| csr_bit int_mtip ||| csr_bit int_meip

abbrev pub int_all_mask : ℕ
int_all_mask = int_s_mask ||| int_m_mask

abbrev pub mip_write_mask : ℕ
mip_write_mask = int_s_mask

abbrev pub sip_write_mask : ℕ
sip_write_mask = csr_bit int_ssip

abbrev pub sip_read_mask : ℕ
sip_read_mask = int_s_mask

abbrev pub mie_write_mask : ℕ
mie_write_mask = int_all_mask

abbrev pub sie_write_mask : ℕ
sie_write_mask = int_s_mask

abbrev pub sie_read_mask : ℕ
sie_read_mask = int_s_mask

abbrev pub mideleg_write_mask : ℕ
mideleg_write_mask = int_s_mask

-- The exceptions 0 to 9, 12, 13 and 15.
abbrev pub medeleg_write_mask : ℕ
medeleg_write_mask =
    csr_bit 0
    ||| csr_bit 1
    ||| csr_bit 2
    ||| csr_bit 3
    ||| csr_bit 4
    ||| csr_bit 5
    ||| csr_bit 6
    ||| csr_bit 7
    ||| csr_bit 8
    ||| csr_bit 9
    ||| csr_bit 12
    ||| csr_bit 13
    ||| csr_bit 15

-- COUNTER_CY_POS, COUNTER_TM_POS and COUNTER_IR_POS.
abbrev pub counter_cy_pos : ℕ
counter_cy_pos = 0

abbrev pub counter_tm_pos : ℕ
counter_tm_pos = 1

abbrev pub counter_ir_pos : ℕ
counter_ir_pos = 2

abbrev pub counteren_write_mask : ℕ
counteren_write_mask = csr_bit counter_cy_pos ||| csr_bit counter_tm_pos ||| csr_bit counter_ir_pos

abbrev pub mcountinhibit_write_mask : ℕ
mcountinhibit_write_mask = csr_bit counter_cy_pos ||| csr_bit counter_ir_pos

abbrev pub satp_mode_pos : ℕ
satp_mode_pos = 60

abbrev pub satp_write_mask : ℕ
satp_write_mask = csr_field_mask 0 44 ||| csr_field_mask satp_mode_pos 4

-- `~0x3`
abbrev pub trap_pc_align_mask : ℕ
trap_pc_align_mask = 2 ^ 64 - 1 - 3

abbrev pub trap_vector_mode_mask : ℕ
trap_vector_mode_mask = 3
