-- ===== src/Cpu/Extend.antt =====
-- `sext` of emulator/src/cpu/cpu.c bit by bit.
use native.Mathlib.Nat.{mod-lt}
use tiny_linux_rv.Prelude.{
  ℕ, ◌+◌, ◌-◌, ◌*◌, ◌/◌, ◌%◌, ◌^◌, ◌≤◌, ◌<◌, ◌≡◌, ap, inl, inr, ◌&&◌, ltb, if◌then◌else◌, arith,
  Bool-cases,
}
use tiny_linux_rv.Bits.{
  test_bit, test_bit-mod, test_bit-shr, test_bit-not, test_bit-high, test_bit-and, test_bit-mask,
}
use tiny_linux_rv.Word.{◌<<<◌, ◌>>>◌, test_bit-shl64}
use tiny_linux_rv.Cpu.Int.{to_int, of_int, shr_int}
use tiny_linux_rv.Cpu.Arith.{sext, bits}
use tiny_linux_rv.Cpu.Division.{word_int}

-- An arithmetic shift to the right fills in the sign bit.
sra-bits :
    (x k i : ℕ)
    → x < 2 ^ 64
    → i < 64
    → test_bit (of_int 64 (shr_int (to_int 64 x) k)) i
      ≡ (if ltb (i + k) 64 then test_bit x (i + k) else test_bit x 63)
unfolding of_int
sra-bits x k i h l = elim (word_int x h) [
  | inl (s, p) ↦ rw p (
      ground (
        arith,
        test_bit-mod 64 (x / 2 ^ k) i,
        test_bit-shr k x i,
        test_bit-high 63 x (i + k) s,
        test_bit-high 63 x 63 s,
      ))
  | inr (s, p) ↦
      let n = 2 ^ 64 - 1 - x in
      rw p (
        ground (
          arith,
          test_bit-not 64 (n / 2 ^ k % 2 ^ 64) i,
          test_bit-mod 64 (n / 2 ^ k) i,
          test_bit-shr k n i,
          test_bit-not 64 x (i + k) h,
          test_bit-not 64 x 63 h,
          test_bit-high 63 n 63,
        ))
]

-- Sign extension: the low bits stay, and the sign bit fills the rest.
pub test_bit-sext :
    (v n i : ℕ)
    → 0 < n
    → n ≤ 64
    → i < 64
    → test_bit (sext v n) i ≡ (if ltb i n then test_bit v i else test_bit v (n - 1))
unfolding sext
test_bit-sext v n i p q l =
    let k = 64 - n in
    rw (sra-bits (v <<< k) k i (mod-lt (v * 2 ^ k) (omega arith)) l) (elim (Bool-cases (ltb i n)) [
      | inl low ↦
          let back : i + k - k ≡ i = omega arith in
          ground (arith, test_bit-shl64 v k (i + k), ap (λ j. test_bit v j) back)
      | inr high ↦
          let top : 63 - k ≡ n - 1 = omega arith in
          ground (arith, test_bit-shl64 v k 63, ap (λ j. test_bit v j) top)
    ])

pub test_bit-bits :
    (v hi lo i : ℕ) → test_bit (bits v hi lo) i ≡ (ltb i (hi - lo + 1) && test_bit v (i + lo))
unfolding bits
test_bit-bits v hi lo i = ground (
  arith,
  test_bit-and (v >>> lo) (2 ^ (hi - lo + 1) - 1) i,
  test_bit-mask (hi - lo + 1) i,
  test_bit-shr lo v i,
)
