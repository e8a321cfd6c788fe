-- ===== src/Paging/Update.antt =====
-- A page is mapped or unmapped where its table is there: that page changes and no other.
use simply_os.Base.{
  ℕ, zero, suc, ◌+◌, ◌*◌, ◌/◌, ◌%◌, ◌^◌, ◌<◌, ◌≡◌, ◌≢◌, refl, ◌∙◌, ap, sym, arith, bit_or, true,
  none, some, if◌then◌else◌, Bool-cases, inl, inr, ℕ_discrete,
}
use simply_os.Base.Bits.{bit_or_fields, bit_or_split, bit_or-zero}
use simply_os.Paging.{
  Machine, page_size, recursive_pd_index, pde_idx, pte_idx, is_present, frame_of, pde, pde_at,
  translate, virt_to_phys, put,
}
use simply_os.Paging.Walk.{IsRecursive, pte_idx-lem, frame_of-lem, slot_base}
use simply_os.Paging.Lookup.{entry_at}

-- Words are words, and different entries of the directory that are present name different tables.
pub record IsTables (m : Machine) : Type 0 where
  pub recursive : IsRecursive m
  pub words : (a : ℕ) → m.phys a < 2 ^ 32
  pub distinct :
      (i j : ℕ)
      → i < 1024
      → j < 1024
      → is_present (pde m i) ≡ true
      → is_present (pde m j) ≡ true
      → i ≢ j
      → frame_of (pde m i) ≢ frame_of (pde m j)

pub put_self : (phys : ℕ → ℕ) (a v : ℕ) → put phys a v a ≡ v
unfolding put
put_self phys a v = ground arith

pub put-ne : (phys : ℕ → ℕ) (a v x : ℕ) → x ≢ a → put phys a v x ≡ phys x
unfolding put
put-ne phys a v x ne = ground arith

-- The entry for a page: its address and its flags.
low_bit : (flags : ℕ) → bit_or flags 1 ≡ flags / 2 * 2 + 1
low_bit flags =
    let shape : bit_or flags 1 ≡ bit_or (flags / 2 * 2 ^ 1 + flags % 2) (0 * 2 ^ 1 + 1) =
      ap (λ t. bit_or t 1) (omega arith) in
    let s = bit_or_split 1 (flags / 2) (flags % 2) 0 1 (omega arith) (omega arith) in
    shape ∙ s ∙ omega (arith, bit_or-zero (flags / 2), one_bit (flags % 2) (omega arith))
  where
    one_bit : (b : ℕ) → b < 2 → bit_or b 1 ≡ 1
    one_bit zero small = refl
    one_bit (suc zero) small = refl
    one_bit (suc (suc b)) small = absurd (omega arith)

pub entry-lem :
    (phys flags : ℕ)
    → phys % 4096 ≡ 0
    → flags < 4096
    → bit_or phys (bit_or flags 1) ≡ phys + (flags / 2 * 2 + 1)
entry-lem phys flags aligned small =
    ap (bit_or phys) (low_bit flags)
    ∙ ap (λ t. bit_or t (flags / 2 * 2 + 1)) (omega arith)
    ∙ bit_or_fields 12 (phys / 4096) (flags / 2 * 2 + 1) (omega arith)
    ∙ omega arith

pub same_frame :
    (a b i j : ℕ)
    → a % 4096 ≡ 0
    → b % 4096 ≡ 0
    → i < 1024
    → j < 1024
    → a + 4 * i ≡ b + 4 * j
    → a ≡ b
same_frame a b i j a_aligned b_aligned small small' e = omega arith

module _ (m : Machine) (t : IsTables m) (virt v : ℕ) (low : virt < 0xFFC00000)
    (present : is_present (pde m (pde_idx virt)) ≡ true) where
  abbrev after : Machine
  after = record m { phys = put m.phys (entry_at m virt) v }

  base_aligned : (i : ℕ) → frame_of (pde m i) % 4096 ≡ 0
  base_aligned i = omega (arith, frame_of-lem (pde m i) (t.words (pde_at m i)))

  -- The entry does not lie in the directory.
  pde_at-ne : (i : ℕ) → i < 1024 → pde_at m i ≢ entry_at m virt
  pde_at-ne i inside =
      let (there, at) = slot_base m t.recursive in
      let apart =
        t.distinct recursive_pd_index (pde_idx virt) (omega arith) (omega arith) there present
          (λ e. omega (arith, e)) in
      let aligned : virt_to_phys m.page_directory % 4096 ≡ 0 =
        omega (arith, t.recursive.aligned, t.recursive.high, t.recursive.word) in
      λ e. apart (
        at
        ∙ same_frame (virt_to_phys m.page_directory) (frame_of (pde m (pde_idx virt))) i
            (pte_idx virt) aligned (base_aligned (pde_idx virt)) inside
            (omega (arith, pte_idx-lem virt)) e)

  pub pde-after : (i : ℕ) → i < 1024 → pde after i ≡ pde m i
  pde-after i inside = put-ne m.phys (entry_at m virt) v (pde_at m i) (pde_at-ne i inside)

  -- The entry of another page is another one.
  entry_at-ne :
      (w : ℕ)
      → w < 2 ^ 32
      → w / page_size ≢ virt / page_size
      → is_present (pde m (pde_idx w)) ≡ true
      → entry_at m w ≢ entry_at m virt
  entry_at-ne w word other there = elim (ℕ_discrete (pde_idx w) (pde_idx virt)) [
    | yes same ↦ λ e.
        omega (arith, e, ap (λ i. frame_of (pde m i)) same, same, pte_idx-lem w, pte_idx-lem virt)
    | no different ↦
        let apart =
          t.distinct (pde_idx w) (pde_idx virt) (omega arith) (omega arith) there present
            different in
        λ e. apart (
          same_frame (frame_of (pde m (pde_idx w))) (frame_of (pde m (pde_idx virt))) (pte_idx w)
            (pte_idx virt) (base_aligned (pde_idx w)) (base_aligned (pde_idx virt))
            (omega (arith, pte_idx-lem w)) (omega (arith, pte_idx-lem virt)) e)
  ]

  -- Another page is translated as before.
  pub translate-other :
      (w : ℕ) → w < 2 ^ 32 → w / page_size ≢ virt / page_size → translate after w ≡ translate m w
  unfolding translate
  translate-other w word other = elim (Bool-cases (is_present (pde m (pde_idx w)))) [
    | inr absent ↦ rw (pde-after (pde_idx w) (omega arith), absent) refl
    | inl there ↦
        rw
          (
            pde-after (pde_idx w) (omega arith),
            put-ne m.phys (entry_at m virt) v (entry_at m w) (entry_at-ne w word other there),
          )
          refl
  ]

  -- This page is translated by the new entry.
  pub translate-this :
      (w : ℕ)
      → w / page_size ≡ virt / page_size
      → translate after w ≡ (if is_present v then some (frame_of v + w % page_size) else none)
  unfolding translate
  translate-this w same =
      let d : pde_idx w ≡ pde_idx virt = omega arith in
      let p : pte_idx w ≡ pte_idx virt = pte_idx-lem w ∙ omega arith ∙ sym (pte_idx-lem virt) in
      rw
        (d, p, pde-after (pde_idx virt) (omega arith), present, put_self m.phys (entry_at m virt) v)
        (ground arith)

  pub after-IsTables : v < 2 ^ 32 → IsTables after
  after-IsTables word = record {
    recursive = record {
      high = t.recursive.high;
      word = t.recursive.word;
      aligned = t.recursive.aligned;
      slot = pde-after recursive_pd_index (omega arith) ∙ t.recursive.slot;
    };
    words = λ a. elim (ℕ_discrete a (entry_at m virt)) [
      | yes e ↦ rw (e, put_self m.phys (entry_at m virt) v) word
      | no ne ↦ rw (put-ne m.phys (entry_at m virt) v a ne) (t.words a)
    ];
    distinct = λ i j hi hj pi pj ne.
        rw (pde-after i hi, pde-after j hj)
          (t.distinct i j hi hj (rw (← pde-after i hi) pi) (rw (← pde-after j hj) pj) ne);
  }
