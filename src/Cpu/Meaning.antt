-- ===== src/Cpu/Meaning.antt =====
-- The switch of `cpu_step` in emulator/src/cpu/cpu.c finds the instruction whose pattern in
-- emulator/include/cpu/decode.h matches.
use tiny_linux_rv.Prelude.{
  ℕ, ◌%◌, bit_and, ◌≡◌, ◌↔◌, ◌∙◌, refl, sym, ap, subst, Bool, true, false, some, List, ◌==◌,
  if◌then◌else◌, arith,
}
use tiny_linux_rv.Bits.{test_bit, test_bit-and, test_bit-mod, test_bit-mask, bits_ext, bit_and-mask}
use tiny_linux_rv.Word.{◌>>>◌}
use tiny_linux_rv.Cpu.Arith.{bits}
use tiny_linux_rv.Cpu.Inst.{Inst}
use tiny_linux_rv.Cpu.Patterns.{inst_pattern}
use tiny_linux_rv.Cpu.Dispatch.{
  inst_cases, dispatch, opcode_lui, opcode_auipc, opcode_jal, opcode_jalr, opcode_branch,
  opcode_load, opcode_store, opcode_op_imm, opcode_op_imm_32, opcode_op, opcode_op_32,
  opcode_misc_mem, opcode_system, opcode_amo,
}
use tiny_linux_rv.Cpu.Unique.{
  differ, differs_all, pairwise, nth, equal_tested, test_equal, first_match-nth,
  first_match-matches,
}
use tiny_linux_rv.Cpu.Listed.{listed}

bits-opcode : (w : ℕ) → bits w 6 0 ≡ w % 128
unfolding bits
bits-opcode w = ap (λ v. bit_and v 127) (shift-zero w) ∙ bit_and-mask 7 w
  where
    shift-zero : (v : ℕ) → v >>> 0 ≡ v
    shift-zero v = omega arith

-- A mask that covers the opcode leaves it as it is.
opcode-masked : (w mask : ℕ) → mask % 128 ≡ 127 → bit_and w mask % 128 ≡ w % 128
opcode-masked w mask h = bits_ext _ _ λ i.
    let low : test_bit (mask % 128) i ≡ test_bit 127 i = ap (λ v. test_bit v i) h in
    ground (
      arith,
      test_bit-mod 7 (bit_and w mask) i,
      test_bit-mod 7 w i,
      test_bit-and w mask i,
      test_bit-mod 7 mask i,
      test_bit-mask 7 i,
      low,
    )

if-pairwise :
    (b : Bool) (x y : List Inst)
    → pairwise x ≡ true
    → pairwise y ≡ true
    → pairwise (if b then x else y) ≡ true
if-pairwise true x y h h' = h
if-pairwise false x y h h' = h'

inst_cases-pairwise : (opcode : ℕ) → pairwise (inst_cases opcode) ≡ true
unfolding inst_cases pairwise differs_all differ
inst_cases-pairwise opcode = if-pairwise (opcode == opcode_lui) _ _ refl (
    if-pairwise (opcode == opcode_auipc) _ _ refl (
      if-pairwise (opcode == opcode_jal) _ _ refl (
        if-pairwise (opcode == opcode_jalr) _ _ refl (
          if-pairwise (opcode == opcode_branch) _ _ refl (
            if-pairwise (opcode == opcode_load) _ _ refl (
              if-pairwise (opcode == opcode_store) _ _ refl (
                if-pairwise (opcode == opcode_op_imm) _ _ refl (
                  if-pairwise (opcode == opcode_op_imm_32) _ _ refl (
                    if-pairwise (opcode == opcode_op) _ _ refl (
                      if-pairwise (opcode == opcode_op_32) _ _ refl (
                        if-pairwise (opcode == opcode_misc_mem) _ _ refl (
                          if-pairwise (opcode == opcode_system) _ _ refl
                            (if-pairwise (opcode == opcode_amo) _ _ refl refl)))))))))))))

-- Whatever the word: the opcode switch with its ordered tests finds an instruction exactly if the word, under
-- that instruction's mask, is its golden value. So the patterns of the 98 instructions exclude each other, each
-- stands under its own opcode, and the order of the tests does not matter.
pub dispatch_iff :
    (w : ℕ) (i : Inst)
    → dispatch w ≡ some i ↔ bit_and w (inst_pattern i).mask ≡ (inst_pattern i).golden
unfolding dispatch
dispatch_iff w i = (
  λ e. equal_tested _ _ (first_match-matches w i (inst_cases (bits w 6 0)) e),
  λ h.
      let (n, at_n, covers) = listed i in
      let opcode : (inst_pattern i).golden % 128 ≡ bits w 6 0 =
        ap (λ v. v % 128) (sym h)
        ∙ opcode-masked w (inst_pattern i).mask covers
        ∙ sym (bits-opcode w) in
      first_match-nth w i (inst_cases (bits w 6 0)) n
        (subst (λ o. nth (inst_cases o) n ≡ some i) opcode at_n) (inst_cases-pairwise (bits w 6 0))
        (test_equal _ _ h),
)
