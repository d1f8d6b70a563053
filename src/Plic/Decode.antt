-- ===== src/Plic/Decode.antt =====
-- The register map of emulator/src/device/plic.c: every access that is not refused stays within the
-- arrays, and what is written to a register is read back.
use tiny_linux_rv.Prelude.{
  ℕ, ◌+◌, ◌*◌, ◌/◌, ◌^◌, ◌<◌, ◌≤◌, ◌≡◌, ◌≢◌, some, ◌==◌, if◌then◌else◌, arith, update, bit_and,
}
use tiny_linux_rv.Word.{u32, not32, sub64}
use tiny_linux_rv.Plic.Defs.{
  Plic, Kind, r_priority, r_pending, r_enable, r_threshold, r_claim, r_invalid, addr_decode,
  max_interrupt, interrupt_words, max_context, restore_source_zero, plic_read, plic_write,
  read_kind, write_kind,
}

-- The index and the context lie within the array that the kind of register uses.
abbrev pub InBounds : Kind → ℕ → ℕ → Type 0
InBounds r_priority context index = index < max_interrupt
InBounds r_pending context index = index < interrupt_words
InBounds r_enable context index = (context < max_context) × (index < interrupt_words)
InBounds r_threshold context index = (context < max_context) × (index < max_context)
InBounds r_claim context index = (context < max_context) × (index < max_context)
InBounds r_invalid context index = Unit {0}

-- Any address and size at all: the access is refused or stays within the arrays, and an access that
-- is not of four bytes is refused.
pub addr_decode-InBounds :
    (p : Plic) (addr size : ℕ)
    → InBounds
        (addr_decode p addr size).kind
        (addr_decode p addr size).context
        (addr_decode p addr size).index
      × (size ≢ 4 → (addr_decode p addr size).kind ≡ r_invalid)
unfolding addr_decode
addr_decode-InBounds p addr size = ground arith

-- The registers of source `i` and of context `k` at their offsets in the memory map.
module _ (p : Plic) (fits : p.base + 2 ^ 26 ≤ 2 ^ 64) where
  decode_priority :
      (i : ℕ)
      → i < max_interrupt
      → addr_decode p (p.base + 4 * i) 4 ≡ record { kind = r_priority; context = 0; index = i }
  unfolding addr_decode
  decode_priority i h =
      let offset : u32 (sub64 (p.base + 4 * i) p.base) ≡ 4 * i = omega arith in
      let index : 4 * i / 4 ≡ i = omega arith in rw (offset, index) (ground arith)

  decode_enable :
      (k : ℕ)
      → k < max_context
      → addr_decode p (p.base + (0x2000 + 0x80 * k)) 4
        ≡ record { kind = r_enable; context = k; index = 0 }
  unfolding addr_decode
  decode_enable k h =
      let offset : u32 (sub64 (p.base + (0x2000 + 0x80 * k)) p.base) ≡ 0x2000 + 0x80 * k =
        omega arith in
      rw offset (ground arith)

  decode_threshold :
      (k : ℕ)
      → k < max_context
      → addr_decode p (p.base + (0x200000 + 0x1000 * k)) 4
        ≡ record { kind = r_threshold; context = k; index = k }
  unfolding addr_decode
  decode_threshold k h =
      let offset : u32 (sub64 (p.base + (0x200000 + 0x1000 * k)) p.base) ≡ 0x200000 + 0x1000 * k =
        omega arith in
      rw offset (ground arith)

module _ (p : Plic) (value : ℕ) (fits : p.base + 2 ^ 26 ≤ 2 ^ 64) where
  priority_roundtrip :
      (i : ℕ)
      → i < max_interrupt
      → (plic_read (plic_write p (p.base + 4 * i) 4 value).0 (p.base + 4 * i) 4).1
        ≡ some (if i == 0 then 0 else u32 value)
  unfolding plic_read plic_write read_kind write_kind restore_source_zero
  priority_roundtrip i h =
      let q =
        restore_source_zero (record p {
          regs = record (p.regs) { priority = update p.regs.priority i (u32 value) };
        }) in
      rw (decode_priority p fits i h) (rw (decode_priority q fits i h) (ground arith))

  enable_roundtrip :
      (k : ℕ)
      → k < max_context
      → (plic_read
          (plic_write p (p.base + (0x2000 + 0x80 * k)) 4 value).0
          (p.base + (0x2000 + 0x80 * k))
          4).1
        ≡ some (bit_and (u32 value) (not32 1))
  unfolding plic_read plic_write read_kind write_kind restore_source_zero
  enable_roundtrip k h =
      let q = restore_source_zero (record p {
        regs = record (p.regs) {
          enable = update p.regs.enable k (update (p.regs.enable k) 0 (u32 value));
        };
      }) in
      rw (decode_enable p fits k h) (rw (decode_enable q fits k h) (ground arith))

  threshold_roundtrip :
      (k : ℕ)
      → k < max_context
      → (plic_read
          (plic_write p (p.base + (0x200000 + 0x1000 * k)) 4 value).0
          (p.base + (0x200000 + 0x1000 * k))
          4).1
        ≡ some (u32 value)
  unfolding plic_read plic_write read_kind write_kind restore_source_zero
  threshold_roundtrip k h =
      let q = restore_source_zero (record p {
        regs = record (p.regs) { threshold = update p.regs.threshold k (u32 value) };
      }) in
      rw (decode_threshold p fits k h) (rw (decode_threshold q fits k h) (ground arith))

  -- What software writes to the priority of a source, to the enable bits of a context and to its
  -- threshold, at their addresses in the memory map, is what it reads there next: 32 bits of it,
  -- without the bit of source 0, and 0 for the priority of source 0.
  pub plic_roundtrip :
      (i k : ℕ)
      → i < max_interrupt
      → k < max_context
      → ((plic_read (plic_write p (p.base + 4 * i) 4 value).0 (p.base + 4 * i) 4).1
          ≡ some (if i == 0 then 0 else u32 value))
        × ((plic_read
              (plic_write p (p.base + (0x2000 + 0x80 * k)) 4 value).0
              (p.base + (0x2000 + 0x80 * k))
              4).1
            ≡ some (bit_and (u32 value) (not32 1)))
        × ((plic_read
              (plic_write p (p.base + (0x200000 + 0x1000 * k)) 4 value).0
              (p.base + (0x200000 + 0x1000 * k))
              4).1
            ≡ some (u32 value))
  plic_roundtrip i k h h' =
      (priority_roundtrip i h, enable_roundtrip k h', threshold_roundtrip k h')
