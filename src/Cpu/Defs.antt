-- ===== src/Cpu/Defs.antt =====
-- The state of emulator/include/cpu/cpu.h, `cpu_init`, and how an instruction of emulator/src/cpu/cpu.c ends.
use tiny_linux_rv.Prelude.{ℕ, Bool, false, List, update}
use tiny_linux_rv.Csr.Defs.{Csr, priv_m}
use tiny_linux_rv.Csr.Access.{csr_init}
use tiny_linux_rv.Tlb.Defs.{Tlb}
use tiny_linux_rv.Bus.Defs.{Bus}

-- The LR/SC reservation.
pub record Reservation : Type 0 where
  pub valid : Bool
  pub addr_start : ℕ
  pub addr_end : ℕ

pub record Cpu : Type 0 where
  pub regs : ℕ → ℕ
  pub pc : ℕ
  pub csr : Csr
  pub i_tlb : Tlb
  pub d_tlb : Tlb
  pub msip : Bool
  pub mtip : Bool
  pub meip : Bool
  pub seip : Bool
  pub halted : Bool
  pub wfi : Bool
  pub priv : ℕ
  pub res : Reservation

abbrev pub rst_vec : ℕ
rst_vec = 0x80000000

abbrev zero_tlb : Tlb
zero_tlb = record {
  tlb = λ i. record {
    valid = false;
    flag = record { a = false; d = false; u = false; x = false; w = false; r = false };
    asid = 0;
    tag = 0;
    ppn = 0;
  };
  hit = 0;
  miss = 0;
}

unfoldable pub cpu_init : Cpu
cpu_init = record {
  regs = λ i. 0;
  pc = rst_vec;
  csr = csr_init;
  i_tlb = zero_tlb;
  d_tlb = zero_tlb;
  msip = false;
  mtip = false;
  meip = false;
  seip = false;
  halted = false;
  wfi = false;
  priv = priv_m;
  res = record { valid = false; addr_start = 0; addr_end = 0 };
}

-- The CPU with what it reaches through its pointer to the bus, and the bytes sent to the terminal.
pub record Machine : Type 0 where
  pub cpu : Cpu
  pub bus : Bus
  pub sent : List ℕ

-- A part of `cpu_step`: it goes on with a value, or jumps to `raise_exception` with a cause and a value.
pub data Run {ℓ} (A : Type ℓ) : Type ℓ where
  result : A → Machine → Run A
  raise : Machine → ℕ → ℕ → Run A

infixl 5 ◌>>=◌
abbrev pub ◌>>=◌ {ℓ κ} : {A : Type ℓ} {B : Type κ} → Run A → (A × Machine → Run B) → Run B
result a m >>= k = k (a, m)
raise m cause val >>= k = raise m cause val

-- `RD() = v`
abbrev pub set_rd : Machine → ℕ → ℕ → Machine
set_rd m rd v = record m { cpu = record (m.cpu) { regs = update m.cpu.regs rd v } }
