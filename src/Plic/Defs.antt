-- ===== src/Plic/Defs.antt =====
-- The state and the functions of emulator/src/device/plic.c. An array is a function from the index;
-- `Decode` shows that the indices stay within the arrays of emulator/include/device/plic.h. A
-- function that changes `*plic` returns the new state; a status of 0 is `true`, and -1 is `false`.
use tiny_linux_rv.Prelude.{
  ℕ, zero, suc, ◌+◌, ◌-◌, ◌*◌, ◌/◌, ◌%◌, ◌^◌, bit_and, bit_or, Bool, true, false, not, ◌&&◌, ◌||◌,
  Option, none, some, ltb, leb, ◌==◌, ◌!=◌, nonzero, if◌then◌else◌, update,
}
use tiny_linux_rv.Word.{u32, sub64, not32}

abbrev pub max_interrupt : ℕ
max_interrupt = 11

-- (PLIC_MAX_INTERRUPT + 31) / 32
abbrev pub interrupt_words : ℕ
interrupt_words = 1

abbrev pub max_context : ℕ
max_context = 2

-- The array `claim` of the source is never used.
pub record PlicReg : Type 0 where
  pub priority : ℕ → ℕ
  pub pending : ℕ → ℕ
  pub enable : ℕ → ℕ → ℕ
  pub threshold : ℕ → ℕ

pub record Plic : Type 0 where
  pub base : ℕ
  pub regs : PlicReg
  pub gw_busy : ℕ → Bool

pub data Kind : Type 0 where
  r_priority r_pending r_enable r_threshold r_claim r_invalid : Kind

pub record RegInfo : Type 0 where
  pub kind : Kind
  pub context : ℕ
  pub index : ℕ

abbrev invalid_info : RegInfo
invalid_info = record { kind = r_invalid; context = 0; index = 0 }

-- The switch on `info.index` in the range of the enable bits.
decode_enable : ℕ → RegInfo
decode_enable offset =
    let context = offset / 0x80 in
    let index = (offset - context * 0x80) / 4 in
    if ltb context max_context
    then if index == 0
      then record { kind = r_enable; context = context; index = index }
      else record { kind = r_invalid; context = context; index = index }
    else record { kind = r_invalid; context = context; index = 0 }

decode_context : ℕ → RegInfo
decode_context offset =
    let context = offset / 0x1000 in
    let index = (offset - context * 0x1000) / 4 in
    if ltb context max_context
    then if index == 0
      then record { kind = r_threshold; context = context; index = context }
      else if index == 1
      then record { kind = r_claim; context = context; index = context }
      else record { kind = r_invalid; context = context; index = index }
    else record { kind = r_invalid; context = context; index = 0 }

-- `offset` is an `int`: from `2 ^ 31` on it is negative, and no range takes it.
unfoldable pub addr_decode : Plic → ℕ → ℕ → RegInfo
unfolding decode_enable decode_context
addr_decode p addr size =
    let offset = u32 (sub64 addr p.base) in
    if size != 4
    then invalid_info
    else if leb (2 ^ 31) offset
    then invalid_info
    else if ltb offset (max_interrupt * 4)
    then record { kind = r_priority; context = 0; index = offset / 4 }
    else if leb 0x1000 offset && ltb offset (0x1000 + interrupt_words * 4)
    then record { kind = r_pending; context = 0; index = (offset - 0x1000) / 4 }
    else if leb 0x2000 offset && ltb offset 0x200000
    then decode_enable (offset - 0x2000)
    else if leb 0x200000 offset
    then decode_context (offset - 0x200000)
    else invalid_info

-- `1U << bit`, at `bit < 32`.
abbrev pub bit32 : ℕ → ℕ
bit32 bit = 2 ^ bit

set_pending : Plic → ℕ → Plic
set_pending p id = record p {
  gw_busy = update p.gw_busy id true;
  regs = record (p.regs) {
    pending = update p.regs.pending (id / 32) (bit_or (p.regs.pending (id / 32)) (bit32 (id % 32)));
  };
}

-- The last two assignments of the gateway.
clear_source_zero : Plic → Plic
clear_source_zero p = record p {
  regs = record (p.regs) {
    pending = update p.regs.pending 0 (bit_and (p.regs.pending 0) (not32 1));
  };
  gw_busy = update p.gw_busy 0 false;
}

unfoldable pub plic_gateway_irq : Plic → ℕ → Bool → Plic
unfolding set_pending clear_source_zero
plic_gateway_irq p id irq =
    clear_source_zero (if irq && not (p.gw_busy id) then set_pending p id else p)

unfoldable pub plic_claim : Plic → ℕ → Plic
plic_claim p id =
    if ltb id max_interrupt
    then record p {
      regs = record (p.regs) {
        pending =
            update p.regs.pending (id / 32)
              (bit_and (p.regs.pending (id / 32)) (not32 (bit32 (id % 32))));
      };
    }
    else p

unfoldable pub plic_complete : Plic → ℕ → ℕ → Plic
plic_complete p id context =
    if ltb id max_interrupt && nonzero (bit_and (p.regs.enable context (id / 32)) (bit32 (id % 32)))
    then record p { gw_busy = update p.gw_busy id false }
    else p

-- `(enabled_pending[i / 32] & (1U << (i % 32))) != 0`
unfoldable pub enabled_pending : Plic → ℕ → ℕ → Bool
enabled_pending p context i =
    nonzero (
      bit_and (bit_and (p.regs.pending (i / 32)) (p.regs.enable context (i / 32))) (bit32 (i % 32)))

-- The loops, as they stand after the first `n` sources.
unfoldable pub irq_scan : Plic → ℕ → ℕ → Bool
irq_scan p context zero = false
irq_scan p context (suc n) =
    irq_scan p context n
    || (enabled_pending p context n
        && (ltb 0 (p.regs.priority n) && ltb (p.regs.threshold context) (p.regs.priority n)))

unfoldable pub interrupt_per_context : Plic → ℕ → Bool
interrupt_per_context p context = irq_scan p context max_interrupt

unfoldable pub claim_scan : Plic → ℕ → ℕ → ℕ
claim_scan p context zero = 0
claim_scan p context (suc n) =
    let id = claim_scan p context n in
    if enabled_pending p context n
      && (ltb 0 (p.regs.priority n) && ltb (p.regs.priority id) (p.regs.priority n))
    then n
    else id

unfoldable pub get_claim_id : Plic → ℕ → ℕ
get_claim_id p context = claim_scan p context max_interrupt

-- What `plic_reset` leaves; all the arrays are zero.
unfoldable pub plic_reset : Plic → Plic
plic_reset p = record p {
  regs = record { priority = λ i. 0; pending = λ i. 0; enable = λ k i. 0; threshold = λ i. 0 };
  gw_busy = λ i. false;
}

-- Source 0 has no priority and is never enabled.
unfoldable pub restore_source_zero : Plic → Plic
restore_source_zero p =
    let enable = p.regs.enable in
    let first = update enable 0 (update (enable 0) 0 (bit_and (enable 0 0) (not32 1))) in
    let second = update first 1 (update (first 1) 0 (bit_and (first 1 0) (not32 1))) in
    record p { regs = record (p.regs) { priority = update p.regs.priority 0 0; enable = second } }

unfoldable pub write_kind : Kind → Plic → RegInfo → ℕ → Plic × Bool
write_kind r_priority p info value = (
  record p { regs = record (p.regs) { priority = update p.regs.priority info.index value } },
  true,
)
write_kind r_pending p info value = (p, true)
write_kind r_enable p info value = (
  record p {
    regs = record (p.regs) {
      enable =
          update p.regs.enable info.context (update (p.regs.enable info.context) info.index value);
    };
  },
  true,
)
write_kind r_threshold p info value = (
  record p { regs = record (p.regs) { threshold = update p.regs.threshold info.index value } },
  true,
)
write_kind r_claim p info value = (plic_complete p value info.context, true)
write_kind r_invalid p info value = (p, false)

-- `value` is what the four bytes at `data` hold.
unfoldable pub plic_write : Plic → ℕ → ℕ → ℕ → Plic × Bool
plic_write p addr size value =
    let info = addr_decode p addr size in
    let (p', valid) = write_kind info.kind p info (u32 value) in
    if valid then (restore_source_zero p', true) else (p', false)

unfoldable pub read_kind : Kind → Plic → RegInfo → Plic × Option ℕ
read_kind r_priority p info = (p, some (p.regs.priority info.index))
read_kind r_pending p info = (p, some (p.regs.pending info.index))
read_kind r_enable p info = (p, some (p.regs.enable info.context info.index))
read_kind r_threshold p info = (p, some (p.regs.threshold info.index))
read_kind r_claim p info =
    let value = get_claim_id p info.context in (plic_claim p value, some value)
read_kind r_invalid p info = (p, none)

-- What is read into the four bytes at `data`; `none` is a return of -1.
unfoldable pub plic_read : Plic → ℕ → ℕ → Plic × Option ℕ
plic_read p addr size = let info = addr_decode p addr size in read_kind info.kind p info

-- The loop of `plic_irq_update`, as it stands after the first `n` sources.
unfoldable pub irq_update_scan : Plic → (ℕ → Bool) → ℕ → Plic
irq_update_scan p irq zero = p
irq_update_scan p irq (suc n) = plic_gateway_irq (irq_update_scan p irq n) n (irq n)

unfoldable pub plic_irq_update : Plic → (ℕ → Bool) → Plic
plic_irq_update p irq = irq_update_scan p irq max_interrupt

unfoldable pub plic_meip : Plic → Bool
plic_meip p = interrupt_per_context p 0

unfoldable pub plic_seip : Plic → Bool
plic_seip p = interrupt_per_context p 1

-- `p` is the state as it was allocated.
unfoldable pub plic_init : Plic → ℕ → Plic
unfolding plic_reset
plic_init p base = plic_reset (record p { base = base })
