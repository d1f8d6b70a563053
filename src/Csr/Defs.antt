-- ===== src/Csr/Defs.antt =====
-- The registers and the address map of emulator/src/cpu/csr.c: `csr_reg_t` and `csr_t` of
-- emulator/include/cpu/csr.h, the enum of the addresses, and what the switch of `csr_access` makes
-- of an address. A pointer into the registers is the name of the register that it points to.
use tiny_linux_rv.Prelude.{
  ℕ, ◌==◌, Bool, true, false, Option, none, some, List, [], ◌∷◌, ◌≡◌, refl, if◌then◌else◌, arith,
}

-- The privilege modes of emulator/include/cpu/riscv.h, as the numbers that the code compares and
-- casts; 2 is no mode, but the type of C can hold it.
abbrev pub priv_u : ℕ
priv_u = 0

abbrev pub priv_s : ℕ
priv_s = 1

abbrev pub priv_m : ℕ
priv_m = 3

pub record CsrReg : Type 0 where
  pub mstatus : ℕ
  pub misa : ℕ
  pub medeleg : ℕ
  pub mideleg : ℕ
  pub mie : ℕ
  pub mtvec : ℕ
  pub mcounteren : ℕ
  pub mscratch : ℕ
  pub mepc : ℕ
  pub mcause : ℕ
  pub mtval : ℕ
  pub mip : ℕ
  pub mcountinhibit : ℕ
  pub mcycle : ℕ
  pub minstret : ℕ
  pub mvendorid : ℕ
  pub marchid : ℕ
  pub mimpid : ℕ
  pub mhartid : ℕ
  pub stvec : ℕ
  pub scounteren : ℕ
  pub sscratch : ℕ
  pub sepc : ℕ
  pub scause : ℕ
  pub stval : ℕ
  pub satp : ℕ
  pub mtime : ℕ

pub record Csr : Type 0 where
  pub csr_reg : CsrReg
  pub starting_mcountinhibit : ℕ
  pub mcycle_written : Bool
  pub minstret_written : Bool
  pub satp_written : Bool

pub data CsrOp : Type 0 where
  csr_op_rw csr_op_rs csr_op_rc : CsrOp

pub data CsrAddr : Type 0 where
  csr_sstatus csr_sie csr_stvec csr_scounteren csr_sscratch csr_sepc : CsrAddr
  csr_scause csr_stval csr_sip csr_satp csr_mstatus csr_misa : CsrAddr
  csr_medeleg csr_mideleg csr_mie csr_mtvec csr_mcounteren csr_mscratch : CsrAddr
  csr_mepc csr_mcause csr_mtval csr_mip csr_mcountinhibit csr_mcycle : CsrAddr
  csr_minstret csr_mvendorid csr_marchid csr_mimpid csr_mhartid csr_cycle : CsrAddr
  csr_time csr_instret : CsrAddr

pub data CsrPtr : Type 0 where
  ptr_mstatus ptr_misa ptr_medeleg ptr_mideleg ptr_mie ptr_mtvec : CsrPtr
  ptr_mcounteren ptr_mscratch ptr_mepc ptr_mcause ptr_mtval ptr_mip : CsrPtr
  ptr_mcountinhibit ptr_mcycle ptr_minstret ptr_mvendorid ptr_marchid ptr_mimpid : CsrPtr
  ptr_mhartid ptr_stvec ptr_scounteren ptr_sscratch ptr_sepc ptr_scause : CsrPtr
  ptr_stval ptr_satp ptr_mtime : CsrPtr

-- The enum's values.
unfoldable pub csr_value : CsrAddr → ℕ
csr_value csr_sstatus = 0x100
csr_value csr_sie = 0x104
csr_value csr_stvec = 0x105
csr_value csr_scounteren = 0x106
csr_value csr_sscratch = 0x140
csr_value csr_sepc = 0x141
csr_value csr_scause = 0x142
csr_value csr_stval = 0x143
csr_value csr_sip = 0x144
csr_value csr_satp = 0x180
csr_value csr_mstatus = 0x300
csr_value csr_misa = 0x301
csr_value csr_medeleg = 0x302
csr_value csr_mideleg = 0x303
csr_value csr_mie = 0x304
csr_value csr_mtvec = 0x305
csr_value csr_mcounteren = 0x306
csr_value csr_mscratch = 0x340
csr_value csr_mepc = 0x341
csr_value csr_mcause = 0x342
csr_value csr_mtval = 0x343
csr_value csr_mip = 0x344
csr_value csr_mcountinhibit = 0x320
csr_value csr_mcycle = 0xb00
csr_value csr_minstret = 0xb02
csr_value csr_mvendorid = 0xf11
csr_value csr_marchid = 0xf12
csr_value csr_mimpid = 0xf13
csr_value csr_mhartid = 0xf14
csr_value csr_cycle = 0xc00
csr_value csr_time = 0xc01
csr_value csr_instret = 0xc02

find_addr : ℕ → List CsrAddr → Option CsrAddr
find_addr addr [] = none
find_addr addr (a ∷ as') = if csr_value a == addr then some a else find_addr addr as'

-- The cases of the switch, in its order.
switch_cases : List CsrAddr
switch_cases =
    csr_sstatus ∷ csr_sie ∷ csr_stvec ∷ csr_scounteren ∷ csr_sscratch ∷ csr_sepc ∷ csr_scause
    ∷ csr_stval ∷ csr_sip ∷ csr_satp ∷ csr_mstatus ∷ csr_misa ∷ csr_medeleg ∷ csr_mideleg ∷ csr_mie
    ∷ csr_mtvec ∷ csr_mcounteren ∷ csr_mscratch ∷ csr_mepc ∷ csr_mcause ∷ csr_mtval ∷ csr_mip
    ∷ csr_mcountinhibit ∷ csr_mcycle ∷ csr_minstret ∷ csr_mvendorid ∷ csr_marchid ∷ csr_mimpid
    ∷ csr_mhartid ∷ csr_cycle ∷ csr_time ∷ csr_instret ∷ []

unfoldable pub decode_addr : ℕ → Option CsrAddr
unfolding csr_value find_addr switch_cases
decode_addr addr = find_addr addr switch_cases

-- `csr_reg = &csr->csr_reg.name`.
unfoldable pub csr_ptr : CsrAddr → CsrPtr
csr_ptr csr_sstatus = ptr_mstatus
csr_ptr csr_sie = ptr_mie
csr_ptr csr_stvec = ptr_stvec
csr_ptr csr_scounteren = ptr_scounteren
csr_ptr csr_sscratch = ptr_sscratch
csr_ptr csr_sepc = ptr_sepc
csr_ptr csr_scause = ptr_scause
csr_ptr csr_stval = ptr_stval
csr_ptr csr_sip = ptr_mip
csr_ptr csr_satp = ptr_satp
csr_ptr csr_mstatus = ptr_mstatus
csr_ptr csr_misa = ptr_misa
csr_ptr csr_medeleg = ptr_medeleg
csr_ptr csr_mideleg = ptr_mideleg
csr_ptr csr_mie = ptr_mie
csr_ptr csr_mtvec = ptr_mtvec
csr_ptr csr_mcounteren = ptr_mcounteren
csr_ptr csr_mscratch = ptr_mscratch
csr_ptr csr_mepc = ptr_mepc
csr_ptr csr_mcause = ptr_mcause
csr_ptr csr_mtval = ptr_mtval
csr_ptr csr_mip = ptr_mip
csr_ptr csr_mcountinhibit = ptr_mcountinhibit
csr_ptr csr_mcycle = ptr_mcycle
csr_ptr csr_minstret = ptr_minstret
csr_ptr csr_mvendorid = ptr_mvendorid
csr_ptr csr_marchid = ptr_marchid
csr_ptr csr_mimpid = ptr_mimpid
csr_ptr csr_mhartid = ptr_mhartid
csr_ptr csr_cycle = ptr_mcycle
csr_ptr csr_time = ptr_mtime
csr_ptr csr_instret = ptr_minstret

-- `CSR_DECODE_RO` against `CSR_DECODE_RW`.
unfoldable pub read_only : CsrAddr → Bool
read_only csr_mvendorid = true
read_only csr_marchid = true
read_only csr_mimpid = true
read_only csr_mhartid = true
read_only csr_cycle = true
read_only csr_time = true
read_only csr_instret = true
read_only _ = false

-- `*csr_reg`, and a store through it.
unfoldable pub get_reg : CsrPtr → CsrReg → ℕ
get_reg ptr_mstatus r = r.mstatus
get_reg ptr_misa r = r.misa
get_reg ptr_medeleg r = r.medeleg
get_reg ptr_mideleg r = r.mideleg
get_reg ptr_mie r = r.mie
get_reg ptr_mtvec r = r.mtvec
get_reg ptr_mcounteren r = r.mcounteren
get_reg ptr_mscratch r = r.mscratch
get_reg ptr_mepc r = r.mepc
get_reg ptr_mcause r = r.mcause
get_reg ptr_mtval r = r.mtval
get_reg ptr_mip r = r.mip
get_reg ptr_mcountinhibit r = r.mcountinhibit
get_reg ptr_mcycle r = r.mcycle
get_reg ptr_minstret r = r.minstret
get_reg ptr_mvendorid r = r.mvendorid
get_reg ptr_marchid r = r.marchid
get_reg ptr_mimpid r = r.mimpid
get_reg ptr_mhartid r = r.mhartid
get_reg ptr_stvec r = r.stvec
get_reg ptr_scounteren r = r.scounteren
get_reg ptr_sscratch r = r.sscratch
get_reg ptr_sepc r = r.sepc
get_reg ptr_scause r = r.scause
get_reg ptr_stval r = r.stval
get_reg ptr_satp r = r.satp
get_reg ptr_mtime r = r.mtime

unfoldable pub set_reg : CsrPtr → ℕ → CsrReg → CsrReg
set_reg ptr_mstatus v r = record r { mstatus = v }
set_reg ptr_misa v r = record r { misa = v }
set_reg ptr_medeleg v r = record r { medeleg = v }
set_reg ptr_mideleg v r = record r { mideleg = v }
set_reg ptr_mie v r = record r { mie = v }
set_reg ptr_mtvec v r = record r { mtvec = v }
set_reg ptr_mcounteren v r = record r { mcounteren = v }
set_reg ptr_mscratch v r = record r { mscratch = v }
set_reg ptr_mepc v r = record r { mepc = v }
set_reg ptr_mcause v r = record r { mcause = v }
set_reg ptr_mtval v r = record r { mtval = v }
set_reg ptr_mip v r = record r { mip = v }
set_reg ptr_mcountinhibit v r = record r { mcountinhibit = v }
set_reg ptr_mcycle v r = record r { mcycle = v }
set_reg ptr_minstret v r = record r { minstret = v }
set_reg ptr_mvendorid v r = record r { mvendorid = v }
set_reg ptr_marchid v r = record r { marchid = v }
set_reg ptr_mimpid v r = record r { mimpid = v }
set_reg ptr_mhartid v r = record r { mhartid = v }
set_reg ptr_stvec v r = record r { stvec = v }
set_reg ptr_scounteren v r = record r { scounteren = v }
set_reg ptr_sscratch v r = record r { sscratch = v }
set_reg ptr_sepc v r = record r { sepc = v }
set_reg ptr_scause v r = record r { scause = v }
set_reg ptr_stval v r = record r { stval = v }
set_reg ptr_satp v r = record r { satp = v }
set_reg ptr_mtime v r = record r { mtime = v }

pub get-set_reg : (p : CsrPtr) (v : ℕ) (r : CsrReg) → get_reg p (set_reg p v r) ≡ v
unfolding get_reg set_reg
get-set_reg ptr_mstatus v r = refl
get-set_reg _ v r = refl

find_addr_sound :
    (n : ℕ) (l : List CsrAddr) (a : CsrAddr) → find_addr n l ≡ some a → csr_value a ≡ n
unfolding find_addr
find_addr_sound n [] a e = cc
find_addr_sound n (b ∷ l) a e = ground (arith, find_addr_sound n l a)

pub decode_addr_sound : (n : ℕ) (a : CsrAddr) → decode_addr n ≡ some a → csr_value a ≡ n
unfolding decode_addr
decode_addr_sound n a e = find_addr_sound n switch_cases a e

pub decode_addr-csr_value : (a : CsrAddr) → decode_addr (csr_value a) ≡ some a
unfolding decode_addr
decode_addr-csr_value csr_sstatus = refl
decode_addr-csr_value _ = refl
