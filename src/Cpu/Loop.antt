-- ===== src/Cpu/Loop.antt =====
-- The loop of `cpu_exec` in emulator/src/cpu/cpu_exec.c as a sequence of turns: when it is left, and that an
-- instruction limit bounds it.
use tiny_linux_rv.Prelude.{
  ℕ, zero, suc, ◌+◌, ◌≤◌, ◌<◌, ◌≡◌, ◌⊎◌, inl, inr, refl, ap, ◌∙◌, Bool, true, false, Option, none,
  some, if◌then◌else◌, arith, Bool-cases, Option-cases,
}
use tiny_linux_rv.Cpu.Int.{ℤ, pos}
use tiny_linux_rv.Cpu.Defs.{Machine}
use tiny_linux_rv.Tlb.Defs.{tlb_void, tlb_init}
use tiny_linux_rv.Cpu.Exec.{ExecStatus, finish, Host, turn, leave_or, exec_loop, cpu_exec}

-- `Turns host limit count m n m'`: full turns go from `m`, with `count` turns made, to `m'`, with `n` made.
pub data Turns (host : Host) (limit : ℤ) : ℕ → Machine → ℕ → Machine → Type 0 where
  here : {count : ℕ} {m : Machine} → Turns host limit count m count m
  onward :
      {count n : ℕ} {m m' : Machine}
      → m.cpu.halted ≡ false
      → (turn host limit count m).1 ≡ none
      → Turns host limit (count + 1) (turn host limit count m).0 n m'
      → Turns host limit count m n m'

-- How the loop is left: the CPU has halted, or the turn has a status.
abbrev pub Left : Host → ℤ → ℕ → Machine → Machine × ExecStatus → Type 0
Left host limit count m r =
    (m.cpu.halted ≡ true) × (r ≡ (m, finish))
    ⊎ (m.cpu.halted ≡ false)
      × ((turn host limit count m).1 ≡ some r.1)
      × ((turn host limit count m).0 ≡ r.0)

-- A full turn is followed by another within the limit.
turn-below :
    (host : Host) (limit count : ℕ) (m : Machine)
    → count < limit
    → (turn host (pos limit) count m).1 ≡ none
    → count + 1 < limit
unfolding turn
turn-below host limit count m l e = ground arith

-- What a call of the loop comes to.
abbrev pub Returns : Host → ℕ → ℕ → Machine → Option (Machine × ExecStatus) → Type 0
Returns host limit count m o =
    (r : Machine × ExecStatus) × (n : ℕ) × (last : Machine) × (o ≡ some r)
    × (n < limit)
    × Turns host (pos limit) count m n last
    × Left host (pos limit) n last r

if_of :
    {b c : Bool} (r r' : Option (Machine × ExecStatus))
    → b ≡ c
    → (if b then r else r') ≡ (if c then r else r')
if_of r r' e = ap (λ b. if b then r else r') e

exec_loop-turn :
    (fuel : ℕ) (host : Host) (limit : ℤ) (count : ℕ) (m : Machine) (o : Option ExecStatus)
    → m.cpu.halted ≡ false
    → (turn host limit count m).1 ≡ o
    → exec_loop (suc fuel) host limit count m
      ≡ leave_or
          (turn host limit count m).0
          o
          (exec_loop fuel host limit (count + 1) (turn host limit count m).0)
unfolding exec_loop
exec_loop-turn fuel host limit count m o h e =
    if_of (some (m, finish)) _ h
    ∙ ap
        (λ o.
          leave_or (turn host limit count m).0 o
            (exec_loop fuel host limit (count + 1) (turn host limit count m).0))
        e

exec_loop-Returns :
    (host : Host) (limit fuel count : ℕ) (m : Machine)
    → count < limit
    → limit ≤ count + fuel
    → Returns host limit count m (exec_loop fuel host (pos limit) count m)
unfolding exec_loop
exec_loop-Returns host limit zero count m l b = absurd (omega arith)
exec_loop-Returns host limit (suc fuel) count m l b = elim (Bool-cases m.cpu.halted) [
  | inl h ↦ ((m, finish), count, m, if_of (some (m, finish)) _ h, l, here, inl (h, refl))
  | inr h ↦ elim (Option-cases (turn host (pos limit) count m).1) [
    | inl e ↦
        let (r, n, last, o, below, turns, left) =
          exec_loop-Returns host limit fuel (count + 1) (turn host (pos limit) count m).0
            (turn-below host limit count m l e) (omega arith) in
        (
          r,
          n,
          last,
          exec_loop-turn fuel host (pos limit) count m none h e ∙ o,
          below,
          onward h e turns,
          left,
        )
    | inr (status, e) ↦ (
      ((turn host (pos limit) count m).0, status),
      count,
      m,
      exec_loop-turn fuel host (pos limit) count m (some status) h e,
      l,
      here,
      inr (h, e, refl),
    )
  ]
]

-- With a positive instruction limit the emulator returns, whatever the program does and the host answers: as
-- much fuel as the limit gives a result, which is that of the machine after at most limit - 1 full turns that
-- each left the CPU running and had no status, either because the CPU has halted or because the next turn has
-- the status returned. The TLBs are void when the first turn starts.
pub cpu_exec-Returns :
    (host : Host) (limit fuel : ℕ) (m : Machine)
    → 0 < limit
    → limit ≤ fuel
    → (r : Machine × ExecStatus) × (n : ℕ) × (last : Machine) × (cpu_exec fuel host (pos limit) m
        ≡ some r)
      × (n < limit)
      × Turns host
          (pos limit)
          0
          (record m {
            cpu = record (m.cpu) { i_tlb = tlb_void m.cpu.i_tlb; d_tlb = tlb_void m.cpu.d_tlb };
          })
          n
          last
      × Left host (pos limit) n last r
unfolding cpu_exec tlb_init
cpu_exec-Returns host limit fuel m p b = exec_loop-Returns host limit fuel 0 _ p (omega arith)
