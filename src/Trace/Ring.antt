-- ===== src/Trace/Ring.antt =====
-- emulator/src/utils/iringbuf.c: the ring buffer of the instructions executed last. What is printed is a list of
-- addresses with their instructions.
use tiny_linux_rv.Prelude.{
  ℕ, zero, suc, ◌+◌, ◌-◌, ◌%◌, ltb, ◌==◌, if◌then◌else◌, update, List, [], ◌∷◌, ◌++◌, Option, none,
  some,
}

abbrev pub iringbuf_len : ℕ
iringbuf_len = 64

pub record Iringbuf : Type 0 where
  pub addr : ℕ → ℕ
  pub inst : ℕ → ℕ
  pub count : ℕ
  pub ptr : ℕ

-- The static variable at the start of the program.
unfoldable pub iringbuf : Iringbuf
iringbuf = record { addr = λ i. 0; inst = λ i. 0; count = 0; ptr = 0 }

unfoldable pub ptr_advance : Iringbuf → Iringbuf
ptr_advance b = record b { ptr = if b.ptr + 1 == iringbuf_len then 0 else b.ptr + 1 }

unfoldable pub iringbuf_write : Iringbuf → ℕ → ℕ → Iringbuf
iringbuf_write b addr inst = ptr_advance record b {
  addr = update b.addr b.ptr addr;
  inst = update b.inst b.ptr inst;
  count = if ltb b.count iringbuf_len then b.count + 1 else b.count;
}

-- An address with its instruction, at a physical position.
abbrev pub entry_at : Iringbuf → ℕ → ℕ × ℕ
entry_at b pos = (b.addr pos, b.inst pos)

-- The loop, for `n` values of `i` from `i` on.
unfoldable pub print_from : Iringbuf → ℕ → ℕ → ℕ → List (ℕ × ℕ)
print_from b first_pos i zero = []
print_from b first_pos i (suc n) =
    entry_at b ((first_pos + i) % iringbuf_len) ∷ print_from b first_pos (i + 1) n

-- The lines printed, the marked last one at their end. An empty buffer has no last line: the C code then reads
-- before its arrays, which is none here.
unfoldable pub iringbuf_print : Iringbuf → Option (List (ℕ × ℕ))
iringbuf_print b =
    let first_pos = if b.count == iringbuf_len then b.ptr else 0 in
    if b.count == 0
    then none
    else some (
        print_from b first_pos 0 (b.count - 1)
        ++ entry_at b ((first_pos + b.count - 1) % iringbuf_len) ∷ [])
