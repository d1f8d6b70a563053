-- ===== src/Mmu/Walk.antt =====
-- The page table walk of emulator/src/cpu/mmu.c against a relation between an address and the entry
-- that the tables in memory give it.
use tiny_linux_rv.Prelude.{
  ℕ, zero, suc, ◌+◌, ◌*◌, ◌/◌, ◌^◌, ◌%◌, ◌<◌, ◌≤◌, ◌≡◌, sym, ap, subst, ◌∙◌, bit_and, Bool, true,
  false, not, ◌&&◌, ◌||◌, Option, none, some, ltb, if◌then◌else◌, arith, Bool-cases, inl, inr,
  Option-cases,
}
use tiny_linux_rv.Bits.{test_bit, test_bit-shr, nonzero-two_pow, bit_and-mask}
use tiny_linux_rv.Word.{u64, ◌>>>◌}
use tiny_linux_rv.Mmu.Defs.{
  Sv39Va, parse_sv39_pte, three, reserved, is_table, table_bits, Leaf, leaf, leaf_access_fault,
  leaf_page_fault, step_2, pte_bit, pagesize,
}

pub pte_bit-test : (pte k : ℕ) → pte_bit pte k ≡ test_bit pte k
pte_bit-test pte k =
    let at : 0 + k ≡ k = omega arith in
    nonzero-two_pow (pte >>> k) 0 ∙ test_bit-shr k pte 0 ∙ ap (test_bit pte) at

-- A leaf: valid, readable or executable, writable only if readable, and no reserved bit.
abbrev pub leaf_entry : ℕ → Bool
leaf_entry pte =
    test_bit pte 0
    && ((test_bit pte 1 || test_bit pte 3)
        && ((not (test_bit pte 2) || test_bit pte 1) && ltb pte (2 ^ 54)))

-- A pointer to a table: valid, none of R, W, X, U, A and D, and no reserved bit.
abbrev pub table_entry : ℕ → Bool
table_entry pte =
    test_bit pte 0
    && (not (test_bit pte 1 || (test_bit pte 2 || test_bit pte 3))
        && (not (test_bit pte 4 || (test_bit pte 6 || test_bit pte 7)) && ltb pte (2 ^ 54)))

-- The address of the entry for `va` in the table at `base`.
abbrev pub entry_addr : ℕ → ℕ → ℕ → ℕ
entry_addr va base level = base + va / 2 ^ (12 + 9 * level) % 512 * 8

-- `Walk read va level base pte k`: from the table at `base`, the entry for `va` is the leaf `pte` at
-- level `k`.
pub data Walk (read : ℕ → Option ℕ) (va : ℕ) : ℕ → ℕ → ℕ → ℕ → Type 0 where
  at_leaf :
      {level base pte : ℕ}
      → read (entry_addr va base level) ≡ some pte
      → leaf_entry pte ≡ true
      → Walk read va level base pte level
  down :
      {level base pte last k : ℕ}
      → read (entry_addr va base (suc level)) ≡ some pte
      → table_entry pte ≡ true
      → Walk read va level (pte / 2 ^ 10 % 2 ^ 44 * 4096) last k
      → Walk read va (suc level) base last k

-- The parts of `va` that `parse_sv39_va` takes.
abbrev pub fields : ℕ → Sv39Va
fields va = record {
  page_offset = bit_and va 0xfff;
  vpn = three (bit_and (va >>> 12) 0x1ff) (bit_and (va >>> 21) 0x1ff) (bit_and (va >>> 30) 0x1ff);
}

-- The page numbers of `va`.
abbrev pub vpn_of : ℕ → ℕ → ℕ
vpn_of va = (fields va).vpn

leaf_entry_lem : (pte : ℕ) → leaf_entry pte ≡ (not (reserved pte) && not (is_table pte))
unfolding parse_sv39_pte
leaf_entry_lem pte =
    ground (arith, pte_bit-test pte 0, pte_bit-test pte 1, pte_bit-test pte 2, pte_bit-test pte 3)

table_entry_lem :
    (pte : ℕ) → table_entry pte ≡ (not (reserved pte) && (is_table pte && not (table_bits pte)))
unfolding parse_sv39_pte
table_entry_lem pte = ground (
  arith,
  pte_bit-test pte 0,
  pte_bit-test pte 1,
  pte_bit-test pte 2,
  pte_bit-test pte 3,
  pte_bit-test pte 4,
  pte_bit-test pte 6,
  pte_bit-test pte 7,
)

vpn_lem :
    (va base level : ℕ)
    → level < 3
    → base + 4096 ≤ 2 ^ 64
    → u64 (base + vpn_of va level * 8) ≡ entry_addr va base level
unfolding three
vpn_lem va base zero h fits = ground (arith, bit_and-mask 9 (va >>> 12))
vpn_lem va base (suc zero) h fits = ground (arith, bit_and-mask 9 (va >>> 21))
vpn_lem va base (suc (suc zero)) h fits = ground (arith, bit_and-mask 9 (va >>> 30))
vpn_lem va base (suc (suc (suc l))) h fits = absurd (omega arith)

table_base : (pte : ℕ) → u64 ((parse_sv39_pte pte).ppn * pagesize) ≡ pte / 2 ^ 10 % 2 ^ 44 * 4096
unfolding parse_sv39_pte
table_base pte = ground (arith, bit_and-mask 44 (pte >>> 10))

-- One step of the walk, from what the entry that is read holds.
after_read : (ℕ → Option ℕ) → (ℕ → ℕ) → ℕ → ℕ → Leaf
after_read read va zero pte =
    if reserved pte then leaf_page_fault else if is_table pte then leaf_page_fault else leaf pte 0
after_read read va (suc level) pte =
    if reserved pte
    then leaf_page_fault
    else if is_table pte
    then (if table_bits pte
        then leaf_page_fault
        else step_2 read va level (u64 ((parse_sv39_pte pte).ppn * pagesize)))
    else leaf pte (suc level)

step_some :
    (read : ℕ → Option ℕ) (va level base pte : ℕ)
    → level < 3
    → base + 4096 ≤ 2 ^ 64
    → read (entry_addr va base level) ≡ some pte
    → step_2 read (vpn_of va) level base ≡ after_read read (vpn_of va) level pte
unfolding step_2 after_read
step_some read va zero base pte h fits e = ground (arith, ap read (vpn_lem va base 0 h fits), e)
step_some read va (suc level) base pte h fits e =
    ground (arith, ap read (vpn_lem va base (suc level) h fits), e)

step_none :
    (read : ℕ → Option ℕ) (va level base : ℕ)
    → level < 3
    → base + 4096 ≤ 2 ^ 64
    → read (entry_addr va base level) ≡ none
    → step_2 read (vpn_of va) level base ≡ leaf_access_fault
unfolding step_2
step_none read va zero base h fits e = ground (arith, ap read (vpn_lem va base 0 h fits), e)
step_none read va (suc level) base h fits e =
    ground (arith, ap read (vpn_lem va base (suc level) h fits), e)

to_leaf :
    (read : ℕ → Option ℕ) (va : ℕ → ℕ) (level pte : ℕ)
    → leaf_entry pte ≡ true
    → after_read read va level pte ≡ leaf pte level
unfolding after_read
to_leaf read va zero pte h = ground (arith, leaf_entry_lem pte)
to_leaf read va (suc level) pte h = ground (arith, leaf_entry_lem pte)

to_table :
    (read : ℕ → Option ℕ) (va : ℕ → ℕ) (level pte : ℕ)
    → table_entry pte ≡ true
    → after_read read va (suc level) pte ≡ step_2 read va level (pte / 2 ^ 10 % 2 ^ 44 * 4096)
unfolding after_read
to_table read va level pte h =
    ground (arith, table_entry_lem pte, ap (step_2 read va level) (table_base pte))

to_fault :
    (read : ℕ → Option ℕ) (va : ℕ → ℕ) (level pte : ℕ)
    → leaf_entry pte ≡ false
    → table_entry pte ≡ false
    → after_read read va level pte ≡ leaf_page_fault
unfolding after_read
to_fault read va zero pte h h' = ground (arith, leaf_entry_lem pte)
to_fault read va (suc level) pte h h' = ground (arith, leaf_entry_lem pte, table_entry_lem pte)

no_table :
    (read : ℕ → Option ℕ) (va : ℕ → ℕ) (pte : ℕ)
    → leaf_entry pte ≡ false
    → after_read read va 0 pte ≡ leaf_page_fault
unfolding after_read
no_table read va pte h = ground (arith, leaf_entry_lem pte)

pub Walk-step_2 :
    (read : ℕ → Option ℕ) (va level base pte k : ℕ)
    → level < 3
    → base + 4096 ≤ 2 ^ 64
    → Walk read va level base pte k
    → step_2 read (vpn_of va) level base ≡ leaf pte k
Walk-step_2 read va level base pte k h fits (at_leaf e ok) =
    step_some read va level base pte h fits e ∙ to_leaf read (vpn_of va) level pte ok
Walk-step_2 read va (suc level) base last k h fits (down {pte = pte} e ok w) =
    step_some read va (suc level) base pte h fits e
    ∙ to_table read (vpn_of va) level pte ok
    ∙ Walk-step_2 read va level (pte / 2 ^ 10 % 2 ^ 44 * 4096) last k (omega arith) (omega arith) w

-- The same leaf, as it is found.
found_here :
    (read : ℕ → Option ℕ) (va level base pte' pte k : ℕ)
    → read (entry_addr va base level) ≡ some pte'
    → leaf_entry pte' ≡ true
    → leaf pte' level ≡ leaf pte k
    → Walk read va level base pte k
found_here read va level base pte' pte k e ok same =
    let entry : pte' ≡ pte = cc in
    let at : level ≡ k = cc in
    subst (λ x. Walk read va level base pte x) at
      (subst (λ x. Walk read va level base x level) entry (at_leaf e ok))

pub step_2-Walk :
    (read : ℕ → Option ℕ) (va level base pte k : ℕ)
    → level < 3
    → base + 4096 ≤ 2 ^ 64
    → step_2 read (vpn_of va) level base ≡ leaf pte k
    → Walk read va level base pte k
step_2-Walk read va zero base pte k h fits e = elim (Option-cases (read (entry_addr va base 0))) [
  | inl failed ↦
      let bad = sym (step_none read va 0 base h fits failed) ∙ e in absurd (ground (arith, bad))
  | inr (pte', given) ↦
      let here = sym (step_some read va 0 base pte' h fits given) ∙ e in
      elim (Bool-cases (leaf_entry pte')) [
        | inl ok ↦
            found_here read va 0 base pte' pte k given ok
              (sym (to_leaf read (vpn_of va) 0 pte' ok) ∙ here)
        | inr other ↦
            let bad = sym (no_table read (vpn_of va) pte' other) ∙ here in
            absurd (ground (arith, bad))
      ]
]
step_2-Walk read va (suc level) base pte k h fits e =
    elim (Option-cases (read (entry_addr va base (suc level)))) [
      | inl failed ↦
          let bad = sym (step_none read va (suc level) base h fits failed) ∙ e in
          absurd (ground (arith, bad))
      | inr (pte', given) ↦
          let here = sym (step_some read va (suc level) base pte' h fits given) ∙ e in
          elim (Bool-cases (leaf_entry pte')) [
            | inl ok ↦
                found_here read va (suc level) base pte' pte k given ok
                  (sym (to_leaf read (vpn_of va) (suc level) pte' ok) ∙ here)
            | inr other ↦ elim (Bool-cases (table_entry pte')) [
              | inl ok ↦ down given ok (
                  step_2-Walk read va level (pte' / 2 ^ 10 % 2 ^ 44 * 4096) pte k (omega arith)
                    (omega arith) (sym (to_table read (vpn_of va) level pte' ok) ∙ here))
              | inr broken ↦
                  let bad = sym (to_fault read (vpn_of va) (suc level) pte' other broken) ∙ here in
                  absurd (ground (arith, bad))
            ]
          ]
    ]
