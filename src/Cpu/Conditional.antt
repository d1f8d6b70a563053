-- ===== src/Cpu/Conditional.antt =====
-- Load-reserved and store-conditional of emulator/src/cpu/cpu.c: EXEC_LR and EXEC_SC.
use tiny_linux_rv.Prelude.{ℕ, ◌+◌, ◌^◌, ◌<◌, ◌≡◌, ◌⊎◌, true, false, update, arith}
use tiny_linux_rv.Word.{u64}
use tiny_linux_rv.Cpu.Defs.{Machine}
use tiny_linux_rv.Cpu.Decode.{InstDec}
use tiny_linux_rv.Cpu.Access.{exec_lr, ma_addr, reservation_miss}
use tiny_linux_rv.Cpu.Outcome.{Ends, Ends-bind, IsKept, exec_load-IsKept}
use tiny_linux_rv.Cpu.Stored.{IsStored}

-- How a store-conditional ends that does not trap: its address was aligned, and the reservation is gone. If it
-- missed, `rd` is 1 and nothing is stored; else the value of rs2 is stored and `rd` is 0.
abbrev pub Settled : Machine → InstDec → ℕ → Unit {0} → Machine → Type 0
Settled m dec size _ m' =
    (ma_addr (m.cpu.regs dec.rs1) size ≡ false)
    × (m'.cpu.res.valid ≡ false)
    × ((reservation_miss m.cpu.res (m.cpu.regs dec.rs1) size ≡ true)
          × (m'.cpu.regs ≡ update m.cpu.regs dec.rd 1)
          × (m'.bus ≡ m.bus)
          × (m'.sent ≡ m.sent)
        ⊎ (reservation_miss m.cpu.res (m.cpu.regs dec.rs1) size ≡ false)
          × (m'.cpu.regs ≡ update m.cpu.regs dec.rd 0)
          × IsStored m (m.cpu.regs dec.rs1) (m.cpu.regs dec.rs2) size m')

-- How one ends that traps: at an address that is not aligned nothing has changed, and after a store that trapped
-- the reservation is gone, with the registers and the RAM as they were.
abbrev pub Unsettled : Machine → InstDec → ℕ → Machine → Type 0
Unsettled m dec size m' =
    (ma_addr (m.cpu.regs dec.rs1) size ≡ true) × (m' ≡ m)
    ⊎ (ma_addr (m.cpu.regs dec.rs1) size ≡ false)
      × (reservation_miss m.cpu.res (m.cpu.regs dec.rs1) size ≡ false)
      × (m'.cpu.res.valid ≡ false)
      × (m'.cpu.regs ≡ m.cpu.regs)
      × (m'.bus.memory ≡ m.bus.memory)

-- The reservation that a load-reserved makes holds at its address, unless the end wraps around.
reserve-hit :
    (addr size : ℕ)
    → addr + size < 2 ^ 64
    → reservation_miss
        record { valid = true; addr_start = addr; addr_end = u64 (addr + size) }
        addr
        size
      ≡ false
reserve-hit addr size h = ground arith

-- After a load-reserved that ends, the store-conditional of the same size to the same address does not miss,
-- for an address whose reservation does not reach the end of the address space.
pub exec_lr-reserves :
    (m : Machine) (dec : InstDec) (size : ℕ)
    → m.cpu.regs dec.rs1 + size < 2 ^ 64
    → Ends
        (λ _ m'. reservation_miss m'.cpu.res (m.cpu.regs dec.rs1) size ≡ false)
        (λ m'. IsKept m m')
        (exec_lr m dec size)
unfolding exec_lr
exec_lr-reserves m dec size h =
    Ends-bind (λ v m'. IsKept m m')
      (λ _ m'. reservation_miss m'.cpu.res (m.cpu.regs dec.rs1) size ≡ false) (λ m'. IsKept m m') _
      _ (exec_load-IsKept m (m.cpu.regs dec.rs1) size _ _)
      (λ v m' k. reserve-hit (m.cpu.regs dec.rs1) size h)
