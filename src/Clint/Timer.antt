-- ===== src/Clint/Timer.antt =====
-- The timer of emulator/src/device/clint.c: mtime follows the host's clock without drift, and the
-- timer interrupt is mtime against mtimecmp.
use tiny_linux_rv.Prelude.{
  ℕ, ◌+◌, ◌-◌, ◌*◌, ◌/◌, ◌%◌, ◌^◌, ◌<◌, ◌≤◌, ◌≡◌, ◌⊎◌, ◌↔◌, true, List, [], ◌∷◌, arith,
}
use tiny_linux_rv.Word.{u64}
use tiny_linux_rv.Clint.Defs.{
  Clint, clint_mtime_tick, clint_irq_level, clint_mtip, clint_msip, clint_mtime,
}

-- One tick for each reading of the clock.
unfoldable pub ticks : Clint → List ℕ → Clint
ticks c [] = c
ticks c (t ∷ ts) = ticks (clint_mtime_tick c t) ts

-- The clock never goes back.
abbrev pub Monotone : ℕ → List ℕ → Type 0
Monotone last [] = Unit {0}
Monotone last (t ∷ ts) = (last ≤ t) × Monotone t ts

abbrev pub final : ℕ → List ℕ → ℕ
final last [] = last
final last (t ∷ ts) = final t ts

-- Between two readings of the clock the device may lag behind by less than one tick.
tick_step :
    (c : Clint) (last t : ℕ)
    → c.prev_time_ns ≤ last
    → last ≤ t
    → ((clint_mtime_tick c t).prev_time_ns ≤ t)
      × (t < (clint_mtime_tick c t).prev_time_ns + 10)
      × ((clint_mtime_tick c t).reg.mtime ≡ u64 (c.reg.mtime + (t - c.prev_time_ns) / 10))
      × ((clint_mtime_tick c t).prev_time_ns ≡ c.prev_time_ns + (t - c.prev_time_ns) / 10 * 10)
unfolding clint_mtime_tick
tick_step c last t h h' = ground arith

final-le : (last : ℕ) (ts : List ℕ) → Monotone last ts → last ≤ final last ts
final-le last [] m = omega arith
final-le last (t ∷ ts) m = omega (arith, final-le t ts m.1)

ticks_sum :
    (c : Clint) (last : ℕ) (ts : List ℕ)
    → c.prev_time_ns ≤ last
    → last < c.prev_time_ns + 10
    → Monotone last ts
    → c.reg.mtime < 2 ^ 64
    → (ticks c ts).reg.mtime ≡ u64 (c.reg.mtime + (final last ts - c.prev_time_ns) / 10)
unfolding ticks
ticks_sum c last [] h g m b = omega arith
ticks_sum c last (t ∷ ts) h g m b =
    let (low, high, time, prev) = tick_step c last t h m.0 in
    let rest = ticks_sum (clint_mtime_tick c t) t ts low high m.1 (omega arith) in
    let grow = final-le t ts m.1 in omega (arith, rest, time, prev)

-- However often and at whatever moments the device reads the host's clock, mtime has advanced by one
-- tick for every full ten nanoseconds since the first reading: the remainders are carried over, and
-- nothing is lost or counted twice. It wraps at 2 ^ 64.
pub ticks_no_drift :
    (c : Clint) (ts : List ℕ)
    → Monotone c.prev_time_ns ts
    → c.reg.mtime < 2 ^ 64
    → clint_mtime (ticks c ts)
      ≡ (c.reg.mtime + (final c.prev_time_ns ts - c.prev_time_ns) / 10) % 2 ^ 64
unfolding clint_mtime
ticks_no_drift c ts m b = ticks_sum c c.prev_time_ns ts (omega arith) (omega arith) m b

-- After an update of the lines, the timer interrupt is pending exactly if mtime has reached mtimecmp,
-- the software interrupt exactly if msip is 1, and the result tells whether one of the two is.
pub clint_irq_level_iff :
    (c : Clint)
    → (clint_mtip (clint_irq_level c).0 ≡ true ↔ (c.reg.mtimecmp ≤ c.reg.mtime))
      × (clint_msip (clint_irq_level c).0 ≡ true ↔ (c.reg.msip ≡ 1))
      × ((clint_irq_level c).1 ≡ true ↔ ((c.reg.mtimecmp ≤ c.reg.mtime) ⊎ (c.reg.msip ≡ 1)))
      × ((clint_irq_level c).0.reg ≡ c.reg)
unfolding clint_irq_level clint_mtip clint_msip
clint_irq_level_iff c = ground arith
