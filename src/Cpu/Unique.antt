-- ===== src/Cpu/Unique.antt =====
-- The switch of `cpu_step` in emulator/src/cpu/cpu.c agrees with the patterns of emulator/include/cpu/decode.h.
use tiny_linux_rv.Prelude.{
  ℕ, zero, suc, bit_and, ◌≡◌, ◌∙◌, refl, sym, ap, subst, inl, inr, Bool, true, false, ◌&&◌, Option,
  none, some, List, [], ◌∷◌, ◌==◌, ◌!=◌, if◌then◌else◌, arith, Bool-cases,
}
use tiny_linux_rv.Bits.{test_bit-and, bits_ext}
use tiny_linux_rv.Cpu.Inst.{Inst}
use tiny_linux_rv.Cpu.Patterns.{inst_pattern}
use tiny_linux_rv.Cpu.Dispatch.{matches, first_match}

-- The goldens differ where both masks look.
unfoldable pub differ : Inst → Inst → Bool
differ i j =
    bit_and (inst_pattern i).golden (inst_pattern j).mask
    != bit_and (inst_pattern j).golden (inst_pattern i).mask

unfoldable pub differs_all : Inst → List Inst → Bool
differs_all i [] = true
differs_all i (j ∷ l) = differ i j && differs_all i l

unfoldable pub pairwise : List Inst → Bool
pairwise [] = true
pairwise (i ∷ l) = differs_all i l && pairwise l

unfoldable pub nth : List Inst → ℕ → Option Inst
nth [] n = none
nth (i ∷ l) zero = some i
nth (i ∷ l) (suc n) = nth l n

pub equal_tested : (a b : ℕ) → (a == b) ≡ true → a ≡ b
equal_tested a b h = ground arith

pub test_equal : (a b : ℕ) → a ≡ b → (a == b) ≡ true
test_equal a b h = ground arith

differ_tested : (a b : ℕ) → a ≡ b → (a != b) ≡ false
differ_tested a b h = ground arith

masked-differ : (w : ℕ) (i j : Inst) → matches w i ≡ true → matches w j ≡ true → differ i j ≡ false
unfolding differ
masked-differ w i j h h' =
    let p = inst_pattern i in
    let q = inst_pattern j in
    let swap : bit_and (bit_and w p.mask) q.mask ≡ bit_and (bit_and w q.mask) p.mask =
      bits_ext _ _ λ k. ground (
        arith,
        test_bit-and (bit_and w p.mask) q.mask k,
        test_bit-and (bit_and w q.mask) p.mask k,
        test_bit-and w p.mask k,
        test_bit-and w q.mask k,
      ) in
    let first : bit_and w p.mask ≡ p.golden = equal_tested _ _ h in
    let second : bit_and w q.mask ≡ q.golden = equal_tested _ _ h' in
    let same : bit_and p.golden q.mask ≡ bit_and q.golden p.mask =
      ap (λ v. bit_and v q.mask) (sym first) ∙ swap ∙ ap (λ v. bit_and v p.mask) second in
    differ_tested _ _ same

or_default : Inst → Option Inst → Inst
or_default d none = d
or_default d (some i) = i

same_inst : {i j : Inst} → some j ≡ some i → j ≡ i
unfolding or_default
same_inst {i} e = ap (or_default i) e

differs_all-nth :
    (j i : Inst) (l : List Inst) (n : ℕ)
    → nth l n ≡ some i
    → differs_all j l ≡ true
    → differ j i ≡ true
unfolding nth differs_all
differs_all-nth j i [] n e d = cc
differs_all-nth j i (k ∷ l) zero e d = subst (λ x. differ j x ≡ true) (same_inst e) (ground arith)
differs_all-nth j i (k ∷ l) (suc n) e d = differs_all-nth j i l n e (ground arith)

pub first_match-nth :
    (w : ℕ) (i : Inst) (l : List Inst) (n : ℕ)
    → nth l n ≡ some i
    → pairwise l ≡ true
    → matches w i ≡ true
    → first_match w l ≡ some i
unfolding nth pairwise first_match
first_match-nth w i [] n e p h = cc
first_match-nth w i (j ∷ l) zero e p h =
    subst (λ x. (if matches w x then some x else first_match w l) ≡ some i) (sym (same_inst e))
      (rw h refl)
first_match-nth w i (j ∷ l) (suc n) e p h =
    let rest = first_match-nth w i l n e (ground arith) h in
    elim (Bool-cases (matches w j)) [
      | inl t ↦
          let apart = differs_all-nth j i l n e (ground arith) in
          let close = masked-differ w j i t h in cc
      | inr f ↦ rw f rest
    ]

pub first_match-matches :
    (w : ℕ) (i : Inst) (l : List Inst) → first_match w l ≡ some i → matches w i ≡ true
unfolding first_match
first_match-matches w i [] e = cc
first_match-matches w i (j ∷ l) e = elim (Bool-cases (matches w j)) [
  | inl t ↦ subst (λ x. matches w x ≡ true) (same_inst (rw t at e)) t
  | inr f ↦ first_match-matches w i l (rw f at e)
]
