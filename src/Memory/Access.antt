-- ===== src/Memory/Access.antt =====
-- Reads after writes in the memory of emulator/src/memory/memory.c.
use native.Mathlib.Nat.{
  one-le-pow, mod-lt, div-add-mod', add-mul-mod_self_right, mod-eq_of_lt, pow-suc,
}
use tiny_linux_rv.Prelude.{
  ℕ, zero, suc, ◌+◌, ◌-◌, ◌*◌, ◌/◌, ◌^◌, ◌%◌, ◌<◌, ◌≤◌, ◌≡◌, ◌⊎◌, ◌↔◌, refl, sym, ap, ◌∙◌, true,
  false, none, some, update, arith, inl, inr, Bool-cases,
}
use tiny_linux_rv.Bits.{bit_and-mask}
use tiny_linux_rv.Word.{u8, sub64}
use tiny_linux_rv.Memory.Defs.{
  Memory, check_addr_range, cpu_access_check, load_bytes, store_bytes, ram_read, ram_write,
}

-- A byte that a store does not reach.
store_apart :
    (bytes : ℕ → ℕ) (o n v i : ℕ) → (i < o) ⊎ (o + n ≤ i) → store_bytes bytes o n v i ≡ bytes i
unfolding store_bytes
store_apart bytes o zero v i h = refl
store_apart bytes o (suc n) v i h = ground (arith, h, store_apart bytes (o + 1) n (v / 2 ^ 8) i)

load_apart :
    (bytes : ℕ → ℕ) (o n v p m : ℕ)
    → (p + m ≤ o) ⊎ (o + n ≤ p)
    → load_bytes (store_bytes bytes o n v) p m ≡ load_bytes bytes p m
unfolding load_bytes
load_apart bytes o n v p zero h = refl
load_apart bytes o n v p (suc m) h =
    ground (arith, h, load_apart bytes o n v (p + 1) m, store_apart bytes o n v p)

load_update :
    (bytes : ℕ → ℕ) (i v p m : ℕ) → i < p → load_bytes (update bytes i v) p m ≡ load_bytes bytes p m
unfolding load_bytes
load_update bytes i v p zero h = refl
load_update bytes i v p (suc m) h = ground (arith, h, load_update bytes i v (p + 1) m)

grow : (n : ℕ) → 2 ^ (8 * suc n) ≡ 2 ^ (8 * n) * 256
grow n =
    let at : 8 * suc n ≡ suc (suc (suc (suc (suc (suc (suc (suc (8 * n)))))))) = omega arith in
    ap (λ (k : ℕ). 2 ^ k) at
    ∙ omega (
      arith,
      pow-suc 2 (8 * n),
      pow-suc 2 (suc (8 * n)),
      pow-suc 2 (suc (suc (8 * n))),
      pow-suc 2 (suc (suc (suc (8 * n)))),
      pow-suc 2 (suc (suc (suc (suc (8 * n))))),
      pow-suc 2 (suc (suc (suc (suc (suc (8 * n)))))),
      pow-suc 2 (suc (suc (suc (suc (suc (suc (8 * n))))))),
      pow-suc 2 (suc (suc (suc (suc (suc (suc (suc (8 * n)))))))),
    )

low_byte : (v n : ℕ) → v % 2 ^ (8 * suc n) ≡ v % 2 ^ 8 + 2 ^ 8 * (v / 2 ^ 8 % 2 ^ (8 * n))
low_byte v n =
    let pos : 0 < 2 ^ (8 * n) = one-le-pow (8 * n) 2 (omega arith) in
    let double : 2 ^ (8 * suc n) ≡ 2 ^ (8 * n) * 256 = grow n in
    let low = v % 256 + 256 * (v / 256 % 2 ^ (8 * n)) in
    let small : low < 2 ^ (8 * n) * 256 = omega (arith, mod-lt (v / 256) pos) in
    let split : v ≡ low + v / 256 / 2 ^ (8 * n) * (2 ^ (8 * n) * 256) =
      omega (arith, ap (λ (t : ℕ). t * 256) (div-add-mod' (v / 256) (2 ^ (8 * n)))) in
    ap (λ (t : ℕ). v % t) double
    ∙ ap (λ (t : ℕ). t % (2 ^ (8 * n) * 256)) split
    ∙ add-mul-mod_self_right low (v / 256 / 2 ^ (8 * n)) (2 ^ (8 * n) * 256)
    ∙ mod-eq_of_lt small

load-store :
    (bytes : ℕ → ℕ) (o n v : ℕ) → load_bytes (store_bytes bytes o n v) o n ≡ v % 2 ^ (8 * n)
unfolding load_bytes store_bytes
load-store bytes o zero v = ground arith
load-store bytes o (suc n) v = ground (
  arith,
  load_update (store_bytes bytes (o + 1) n (v / 2 ^ 8)) o (u8 v) (o + 1) n,
  load-store bytes (o + 1) n (v / 2 ^ 8),
  low_byte v n,
)

-- Where an access that is checked starts.
offset_lem :
    (m : Memory) (addr size : ℕ)
    → addr < 2 ^ 64
    → cpu_access_check m addr size ≡ true
    → sub64 addr m.base ≡ addr - m.base
unfolding cpu_access_check check_addr_range
offset_lem m addr size h ok = ground (arith, ok)

write_ok :
    (m : Memory) (addr size v : ℕ)
    → (ram_write m addr size v).1 ≡ true
    → (cpu_access_check m addr size ≡ true)
      × (ram_write m addr size v
          ≡ (record m { bytes = store_bytes m.bytes (sub64 addr m.base) size v }, true))
unfolding ram_write
write_ok m addr size v h = elim (Bool-cases (cpu_access_check m addr size)) [
  | inl ok ↦ (ok, rw ok refl)
  | inr bad ↦ absurd (ground (arith, h, bad))
]

module _ (m : Memory) (bytes : ℕ → ℕ) (addr size : ℕ) where
  same_check :
      cpu_access_check (record m { bytes = bytes }) addr size ≡ cpu_access_check m addr size
  unfolding cpu_access_check
  same_check = refl

  read_ok :
      cpu_access_check m addr size ≡ true
      → ram_read (record m { bytes = bytes }) addr size
        ≡ some (load_bytes bytes (sub64 addr m.base) size)
  unfolding ram_read
  read_ok ok = rw (same_check, ok) refl

  read_bad :
      cpu_access_check m addr size ≡ false → ram_read (record m { bytes = bytes }) addr size ≡ none
  unfolding ram_read
  read_bad bad = rw (same_check, bad) refl

write_bad :
    (m : Memory) (addr size v : ℕ)
    → (ram_write m addr size v).1 ≡ false
    → (ram_write m addr size v).0 ≡ m
unfolding ram_write
write_bad m addr size v h = ground (arith, h)

-- The accesses that pass the check start at or above the base.
above_base : (m : Memory) (addr size : ℕ) → cpu_access_check m addr size ≡ true → m.base ≤ addr
unfolding cpu_access_check check_addr_range
above_base m addr size ok = ground (arith, ok)

read_apart :
    (m : Memory) (addr size v addr' size' : ℕ)
    → addr < 2 ^ 64
    → addr' < 2 ^ 64
    → cpu_access_check m addr size ≡ true
    → (addr' + size' ≤ addr) ⊎ (addr + size ≤ addr')
    → ram_read (record m { bytes = store_bytes m.bytes (sub64 addr m.base) size v }) addr' size'
      ≡ ram_read m addr' size'
read_apart m addr size v addr' size' h h' ok apart =
    elim (Bool-cases (cpu_access_check m addr' size')) [
      | inl good ↦
          let here = offset_lem m addr size h ok in
          let there = offset_lem m addr' size' h' good in
          let low = above_base m addr size ok in
          let low' = above_base m addr' size' good in
          read_ok m (store_bytes m.bytes (sub64 addr m.base) size v) addr' size' good
          ∙ ap some (
              load_apart m.bytes (sub64 addr m.base) size v (sub64 addr' m.base) size'
                (ground (arith, here, there, low, low', apart)))
          ∙ sym (read_ok m m.bytes addr' size' good)
      | inr bad ↦
          read_bad m (store_bytes m.bytes (sub64 addr m.base) size v) addr' size' bad
          ∙ sym (read_bad m m.bytes addr' size' bad)
    ]

-- A successful write is read back, modulo the width of the access; any access to other bytes reads
-- what it read before; and a write that fails changes nothing.
pub ram_read-ram_write :
    (m : Memory) (addr size v : ℕ)
    → addr < 2 ^ 64
    → ((ram_write m addr size v).1 ≡ true
        → (ram_read (ram_write m addr size v).0 addr size ≡ some (v % 2 ^ (8 * size)))
          × ((addr' size' : ℕ)
              → addr' < 2 ^ 64
              → (addr' + size' ≤ addr) ⊎ (addr + size ≤ addr')
              → ram_read (ram_write m addr size v).0 addr' size' ≡ ram_read m addr' size'))
      × ((ram_write m addr size v).1 ≡ false → (ram_write m addr size v).0 ≡ m)
ram_read-ram_write m addr size v h = (
  λ e.
      let (ok, is) = write_ok m addr size v e in
      rw is (
        read_ok m (store_bytes m.bytes (sub64 addr m.base) size v) addr size ok
            ∙ ap some (load-store m.bytes (sub64 addr m.base) size v),
        λ addr' size' h' apart. read_apart m addr size v addr' size' h h' ok apart,
      ),
  write_bad m addr size v,
)

-- The check passes exactly for an access of 1, 2, 4 or 8 bytes at a multiple of its size, all of whose
-- bytes lie in the memory.
pub cpu_access_check_iff :
    (m : Memory) (addr size : ℕ)
    → (cpu_access_check m addr size ≡ true) ↔ (
        ((size ≡ 1) ⊎ ((size ≡ 2) ⊎ ((size ≡ 4) ⊎ (size ≡ 8))))
        × (addr % size ≡ 0)
        × (m.base ≤ addr)
        × (addr + size ≤ m.base + m.size))
unfolding cpu_access_check check_addr_range
cpu_access_check_iff m addr size =
    ground
      (arith, bit_and-mask 0 addr, bit_and-mask 1 addr, bit_and-mask 2 addr, bit_and-mask 3 addr)
