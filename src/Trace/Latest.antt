-- ===== src/Trace/Latest.antt =====
-- The ring buffer of emulator/src/utils/iringbuf.c prints the latest instructions, oldest first.
use tiny_linux_rv.Prelude.{
  ℕ, zero, suc, ◌+◌, ◌-◌, ◌%◌, ◌≤◌, ◌<◌, ◌≡◌, ◌∙◌, refl, sym, ap, ap₂, inl, inr, true, false, ltb,
  ◌==◌, if◌then◌else◌, List, [], ◌∷◌, ◌++◌, arith, Bool-cases, some,
}
use tiny_linux_rv.Trace.Ring.{
  Iringbuf, iringbuf, ptr_advance, iringbuf_write, entry_at, print_from, iringbuf_print,
}

-- The buffer after the first `n` instructions of a history.
unfoldable pub written : (ℕ → ℕ × ℕ) → ℕ → Iringbuf
written h zero = iringbuf
written h (suc n) = iringbuf_write (written h n) (h n).0 (h n).1

-- The history from instruction `i` on, `n` of them.
unfoldable pub slice : (ℕ → ℕ × ℕ) → ℕ → ℕ → List (ℕ × ℕ)
slice h i zero = []
slice h i (suc n) = h i ∷ slice h (i + 1) n

-- How many instructions are kept of `n`.
abbrev pub kept : ℕ → ℕ
kept n = if ltb n 64 then n else 64

module _ (h : ℕ → ℕ × ℕ) where
  written-ptr : (n : ℕ) → (written h n).ptr ≡ n % 64
  unfolding written iringbuf iringbuf_write ptr_advance
  written-ptr zero = refl
  written-ptr (suc n) = ground (arith, written-ptr n)

  written-count : (n : ℕ) → (written h n).count ≡ kept n
  unfolding written iringbuf iringbuf_write ptr_advance
  written-count zero = refl
  written-count (suc n) = ground (arith, written-count n)

  written-entry : (n j : ℕ) → j < n → n ≤ j + 64 → entry_at (written h n) (j % 64) ≡ h j
  unfolding written iringbuf_write ptr_advance
  written-entry zero j l u = absurd (omega arith)
  written-entry (suc n) j l u = elim (Bool-cases (j % 64 == n % 64)) [
    | inl same ↦
        let latest : j ≡ n = ground arith in
        let found : (j % 64 == (written h n).ptr) ≡ true = rw written-ptr same in
        rw found (ap h (sym latest))
    | inr other ↦
        let missed : (j % 64 == (written h n).ptr) ≡ false = rw written-ptr other in
        let before : j < n = ground arith in rw missed (written-entry n j before (omega arith))
  ]

  print_from-slice :
      (n first i k : ℕ)
      → ((j : ℕ)
          → i ≤ j
          → j < i + k
          → entry_at (written h n) ((first + j) % 64) ≡ h (n - kept n + j))
      → print_from (written h n) first i k ≡ slice h (n - kept n + i) k
  unfolding print_from slice
  print_from-slice n first i zero f = refl
  print_from-slice n first i (suc k) f =
      ap₂ (λ x l. x ∷ l) (f i (omega arith) (omega arith))
        (print_from-slice n first (i + 1) k (λ j l u. f j (omega arith) (omega arith))
          ∙ ap (λ a. slice h a k) (shift (n - kept n) i))
    where
      shift : (a b : ℕ) → a + (b + 1) ≡ a + b + 1
      shift a b = omega arith

  slice-last : (i k : ℕ) → slice h i k ++ h (i + k) ∷ [] ≡ slice h i (suc k)
  unfolding slice
  slice-last i zero = ap (λ a. h a ∷ []) (omega arith)
  slice-last i (suc k) =
      ap (λ l. h i ∷ l)
        (ap (λ a. slice h (i + 1) k ++ h a ∷ []) (omega arith) ∙ slice-last (i + 1) k)

  -- Position `first_pos + j` holds the kept instruction `j`.
  position :
      (n j : ℕ)
      → j < kept n
      → entry_at
          (written h n)
          (((if (written h n).count == 64 then (written h n).ptr else 0) + j) % 64)
        ≡ h (n - kept n + j)
  position n j l =
      let place : ((if (written h n).count == 64 then (written h n).ptr else 0) + j) % 64
          ≡ (n - kept n + j) % 64 =
        ground (arith, written-count n, written-ptr n) in
      ap (λ p. entry_at (written h n) p) place
      ∙ written-entry n (n - kept n + j) (ground arith) (ground arith)

  -- After any number of instructions from 1 on, what is printed are the latest ones, all if there are fewer than
  -- 64 and else the last 64, in the order of their execution.
  pub iringbuf_print-latest :
      (n : ℕ) → 0 < n → iringbuf_print (written h n) ≡ some (slice h (n - kept n) (kept n))
  unfolding iringbuf_print
  iringbuf_print-latest n p =
      let b = written h n in
      let first = if b.count == 64 then b.ptr else 0 in
      let k = b.count - 1 in
      let total : b.count ≡ kept n = written-count n in
      let some_kept : 0 < kept n = ground arith in
      let before : print_from b first 0 k ≡ slice h (n - kept n + 0) k =
        print_from-slice n first 0 k (λ j l u. position n j (omega arith)) in
      let index : (first + b.count - 1) % 64 ≡ (first + k) % 64 = ap (λ v. v % 64) (omega arith) in
      let last : entry_at b ((first + b.count - 1) % 64) ≡ h (n - kept n + k) =
        ap (λ q. entry_at b q) index ∙ position n k (omega arith) in
      let filled : (b.count == 0) ≡ false = ground arith in
      rw filled (
        ap some (
          ap₂ (λ l x. l ++ x ∷ []) (before ∙ ap (λ a. slice h a k) (omega arith)) last
          ∙ (slice-last (n - kept n) k ∙ ap (λ c. slice h (n - kept n) c) (omega arith))))
