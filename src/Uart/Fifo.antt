-- ===== src/Uart/Fifo.antt =====
-- The receive FIFO of emulator/src/device/uart16550.c as a bounded queue: the ring of 16 bytes holds
-- the bytes received and not yet read, oldest first.
use tiny_linux_rv.Prelude.{
  ℕ, zero, suc, ◌+◌, ◌-◌, ◌%◌, ◌<◌, ◌≤◌, ◌≡◌, ap, ap₂, refl, ◌∙◌, bit_and, true, false, ◌||◌, List,
  [], ◌∷◌, ◌++◌, length, arith, ◌==◌, if◌then◌else◌, update, Bool-cases, inl, inr,
}
use tiny_linux_rv.Bits.{test_bit-and, test_bit-mod, test_bit-mask, bits_ext}
use tiny_linux_rv.Word.{u8}
use tiny_linux_rv.Uart.Defs.{Uart, fifo_enable, rx_fifo_write, rx_fifo_read}

-- `x & 0xF` is the remainder.
and_low : (x : ℕ) → bit_and x 0xf ≡ x % 16
and_low x =
    bits_ext _ _ λ i. ground (arith, test_bit-and x 0xf i, test_bit-mask 4 i, test_bit-mod 4 x i)

-- `n` bytes of the ring from `rd` on.
unfoldable pub items : (ℕ → ℕ) → ℕ → ℕ → List ℕ
items bytes rd zero = []
items bytes rd (suc n) = bytes rd ∷ items bytes ((rd + 1) % 16) n

abbrev pub contents : Uart → List ℕ
contents u = items u.rx_fifo.bytes u.rx_fifo.rd_ptr u.rx_fifo.size

-- How many bytes are kept: 16, or 1 with the FIFO disabled.
abbrev pub capacity : Uart → ℕ
capacity u = if fifo_enable u then 16 else 1

pub record IsValid (u : Uart) : Type 0 where
  pub rd_in : u.rx_fifo.rd_ptr < 16
  pub wr_at : u.rx_fifo.wr_ptr ≡ (u.rx_fifo.rd_ptr + u.rx_fifo.size) % 16
  pub size_in : u.rx_fifo.size ≤ capacity u

pub length-items : (bytes : ℕ → ℕ) (rd n : ℕ) → length (items bytes rd n) ≡ n
unfolding items
length-items bytes rd zero = refl
length-items bytes rd (suc n) = ap suc (length-items bytes ((rd + 1) % 16) n)

-- A store at the end of `n` bytes appends to them.
items-update :
    (bytes : ℕ → ℕ) (rd n v : ℕ)
    → rd < 16
    → n < 16
    → items (update bytes ((rd + n) % 16) v) rd (suc n) ≡ items bytes rd n ++ v ∷ []
unfolding items
items-update bytes rd zero v h h' =
    let here : (rd + 0) % 16 ≡ rd = omega arith in rw here (ground arith)
items-update bytes rd (suc n) v h h' =
    let next : (rd + suc n) % 16 ≡ ((rd + 1) % 16 + n) % 16 = omega arith in
    let other : (rd == (rd + suc n) % 16) ≡ false = ground arith in
    ap₂ (λ x l. x ∷ l) (rw other)
      (ap (λ (k : ℕ). items (update bytes k v) ((rd + 1) % 16) (suc n)) next
        ∙ items-update bytes ((rd + 1) % 16) n v (omega arith) (omega arith))

add-one : (n : ℕ) → n + 1 ≡ suc n
add-one n = omega arith

-- The two outcomes of a write to the FIFO.
abbrev full_state : Uart → Uart
full_state u = record u { rx_fifo = record (u.rx_fifo) { overrun = true } }

abbrev stored_state : Uart → ℕ → Uart
stored_state u b = record u {
  rx_fifo = record (u.rx_fifo) {
    bytes = update u.rx_fifo.bytes ((u.rx_fifo.rd_ptr + u.rx_fifo.size) % 16) b;
    size = u.rx_fifo.size + 1;
    wr_ptr = (u.rx_fifo.wr_ptr + 1) % 16;
  };
}

write_full :
    (u : Uart) (b : ℕ)
    → IsValid u
    → (u.rx_fifo.size == capacity u) ≡ true
    → rx_fifo_write u b ≡ full_state u
unfolding rx_fifo_write
write_full u b v e = ground arith

write_room :
    (u : Uart) (b : ℕ)
    → IsValid u
    → (u.rx_fifo.size == capacity u) ≡ false
    → rx_fifo_write u b ≡ stored_state u b
unfolding rx_fifo_write
write_room u b v e =
    let place : u.rx_fifo.wr_ptr ≡ (u.rx_fifo.rd_ptr + u.rx_fifo.size) % 16 = v.wr_at in
    let small : u8 (u.rx_fifo.size + 1) ≡ u.rx_fifo.size + 1 = ground arith in
    ground (arith, and_low (u.rx_fifo.wr_ptr + 1), ap (update u.rx_fifo.bytes) place)

-- A byte that arrives: appended if there is room, dropped with the overrun flag set if there is none.
pub receive_lem :
    (u : Uart) (b : ℕ)
    → IsValid u
    → (contents (rx_fifo_write u b)
        ≡ (if length (contents u) == capacity u then contents u else contents u ++ b ∷ []))
      × ((rx_fifo_write u b).rx_fifo.overrun
          ≡ (u.rx_fifo.overrun || length (contents u) == capacity u))
      × IsValid (rx_fifo_write u b)
receive_lem u b v =
    let f = u.rx_fifo in
    rw (length-items f.bytes f.rd_ptr f.size) (elim (Bool-cases (f.size == capacity u)) [
      | inl full ↦
          rw (write_full u b v full, full)
            (refl, ground arith, record { rd_in = v.rd_in; wr_at = v.wr_at; size_in = v.size_in })
      | inr room ↦
          rw (write_room u b v room, room)
            (
              ap (items (update f.bytes ((f.rd_ptr + f.size) % 16) b) f.rd_ptr) (add-one f.size)
                  ∙ items-update f.bytes f.rd_ptr f.size b v.rd_in (ground (arith, v.size_in)),
              ground arith,
              record {
                rd_in = v.rd_in;
                wr_at = ground (arith, v.wr_at);
                size_in = ground (arith, v.size_in);
              },
            )
    ])

-- The oldest byte is taken; with none left the read gives 0 and sets the underrun flag.
abbrev pub oldest : List ℕ → ℕ
oldest [] = 0
oldest (x ∷ l) = x

abbrev pub rest : List ℕ → List ℕ
rest [] = []
rest (x ∷ l) = l

abbrev taken_state : Uart → Uart
taken_state u = record u {
  rx_fifo = record (u.rx_fifo) { size = u.rx_fifo.size - 1; rd_ptr = (u.rx_fifo.rd_ptr + 1) % 16 };
}

fetch_some :
    (u : Uart)
    → (u.rx_fifo.size == 0) ≡ false
    → rx_fifo_read u ≡ (taken_state u, u.rx_fifo.bytes u.rx_fifo.rd_ptr)
unfolding rx_fifo_read
fetch_some u e = ground (arith, and_low (u.rx_fifo.rd_ptr + 1))

fetch_none :
    (u : Uart)
    → (u.rx_fifo.size == 0) ≡ true
    → rx_fifo_read u ≡ (record u { rx_fifo = record (u.rx_fifo) { underrun = true } }, 0)
unfolding rx_fifo_read
fetch_none u e = ground arith

less-one : (n : ℕ) → n ≡ suc n - 1
less-one n = omega arith

items-cons :
    (bytes : ℕ → ℕ) (rd n : ℕ)
    → (n == 0) ≡ false
    → items bytes rd n ≡ bytes rd ∷ items bytes ((rd + 1) % 16) (n - 1)
unfolding items
items-cons bytes rd zero h = ground (arith, h)
items-cons bytes rd (suc n) h = ap (λ k. bytes rd ∷ items bytes ((rd + 1) % 16) k) (less-one n)

items-nil : (bytes : ℕ → ℕ) (rd n : ℕ) → (n == 0) ≡ true → items bytes rd n ≡ []
unfolding items
items-nil bytes rd zero h = refl
items-nil bytes rd (suc n) h = ground (arith, h)

pub fetch_lem :
    (u : Uart)
    → IsValid u
    → ((rx_fifo_read u).1 ≡ oldest (contents u))
      × (contents (rx_fifo_read u).0 ≡ rest (contents u))
      × ((rx_fifo_read u).0.rx_fifo.overrun ≡ u.rx_fifo.overrun)
      × IsValid (rx_fifo_read u).0
fetch_lem u v =
    let f = u.rx_fifo in
    elim (Bool-cases (f.size == 0)) [
      | inl empty ↦
          rw (fetch_none u empty, items-nil f.bytes f.rd_ptr f.size empty)
            (refl, refl, refl, record { rd_in = v.rd_in; wr_at = v.wr_at; size_in = v.size_in })
      | inr some_left ↦
          rw (fetch_some u some_left, items-cons f.bytes f.rd_ptr f.size some_left)
            (
              refl,
              refl,
              refl,
              record {
                rd_in = omega arith;
                wr_at = ground (arith, v.wr_at, v.rd_in);
                size_in = ground (arith, v.size_in);
              },
            )
    ]
