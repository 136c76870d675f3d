-- ===== src/Memory/Cut.antt =====
-- One cut of a block, as `split_area` makes it: the pages stay in use, and the two parts take over
-- the pages of the whole.
use ring3k.Prelude.{
  ℕ, ◌+◌, ◌-◌, ◌*◌, ◌/◌, ◌%◌, ◌<◌, ◌≡◌, ◌≢◌, refl, sym, ap, ◌∙◌, true, false, leb, ltb, ◌==◌,
  if◌then◌else◌, Bool-cases, lt-or-le, ==→≡, ==→≢, inl, inr, [], ◌∷◌, ◌++◌, arith,
}
use ring3k.Prelude.Checked.{returns}
use ring3k.Memory.Block.{MBlock, page_size, mem_free, split, rest_of}
use ring3k.Memory.Space.{
  Space, page_count, total_size, cut, insert_block, update_page_translation, allocate_block, store,
  put,
}
use ring3k.Memory.Virtual.{is_linked}
use ring3k.Memory.Pages.{
  in_pages, set_pages_lem, is_linked-append, IsDistinct-append, total_size-append, total_size-put,
}
use ring3k.Memory.Valid.{Covers, IsPlaced, IsBlock, IsValid, pages_of_block}

-- `s'` is `s` with block `id` cut after `length` bytes, the rest being the block `s.next`.
pub record IsCut (s s' : Space) (id length : ℕ) : Type 0 where
  pub valid : IsValid s'
  pub short : s'.block id ≡ record (s.block id) { region_size = length }
  pub rest : s'.block s.next ≡ rest_of (s.block id) length
  pub others : (q : ℕ) → q ≢ id → q ≢ s.next → s'.block q ≡ s.block q
  pub listed : s'.blocks ≡ s.blocks ++ s.next ∷ []
  pub high : s'.highest_address ≡ s.highest_address
  pub next : s'.next ≡ s.next + 1
  pub used : (p : ℕ) → (s'.xlate p ≡ 0 → s.xlate p ≡ 0) × (s.xlate p ≡ 0 → s'.xlate p ≡ 0)

module _ (s : Space) (v : IsValid s) (id length : ℕ) (l : is_linked s.blocks id ≡ true)
    (whole : length % page_size ≡ 0) (some_left : 0 < length)
    (shorter : length < (s.block id).region_size) where
  block : IsBlock s id
  block = v.linked id l

  abbrev short : MBlock
  short = record (s.block id) { region_size = length }

  abbrev rest : MBlock
  rest = rest_of (s.block id) length

  -- The space after the cut.
  after : Space
  unfolding insert_block update_page_translation
  after =
      insert_block (update_page_translation (allocate_block (store s id short) rest) s.next) s.next

  cut_returns : cut s id length ≡ returns (s.next, after)
  unfolding cut split after
  cut_returns =
      let least : leb page_size length ≡ true = ground arith in
      let aligned : (length % page_size == 0) ≡ true = ground arith in
      let differ : ((s.block id).region_size == length) ≡ false = ground arith in
      let under : ltb length (s.block id).region_size ≡ true = ground arith in
      let left : ((s.block id).region_size - length) % page_size ≡ 0 =
        omega (arith, block.placed.whole) in
      rw (least, aligned, differ, under, left)

  rest-IsPlaced : IsPlaced s.highest_address rest
  unfolding rest_of
  rest-IsPlaced = record {
    aligned = omega (arith, block.placed.aligned);
    whole = omega (arith, block.placed.whole);
    some = omega arith;
    within = omega (arith, block.placed.within);
    held = block.placed.held;
  }

  other_number : (s.next == id) ≡ false
  other_number = ground (arith, block.old)

  block_after :
      (q : ℕ) → after.block q ≡ (if s.next == q then rest else if id == q then short else s.block q)
  unfolding after
  block_after q = refl

  xlate_after :
      (p : ℕ)
      → after.xlate p ≡ (
          if in_pages (rest.base_address / page_size) (page_count rest.region_size) p
          then s.next
          else s.xlate p)
  unfolding after rest_of
  xlate_after p =
      let held : ((s.block id).state == mem_free) ≡ false = ground (arith, block.placed.held) in
      let is_rest : put (put s.block id short) s.next rest s.next ≡ rest = ground arith in
      rw (is_rest, held)
        (set_pages_lem s.xlate (rest.base_address / page_size) (page_count rest.region_size) s.next
          p)

  is_rest : after.block s.next ≡ rest
  is_rest = block_after s.next ∙ ground arith

  is_short : after.block id ≡ short
  is_short = block_after id ∙ ground (arith, other_number)

  is_other : (q : ℕ) → q ≢ id → q ≢ s.next → after.block q ≡ s.block q
  is_other q a b = block_after q ∙ ground arith

  -- The pages behind the cut belong to the block, and not to its first part.
  behind :
      (p : ℕ)
      → in_pages (rest.base_address / page_size) (page_count rest.region_size) p ≡ true
      → (s.xlate p ≡ id) × (Covers short p → ⊥)
  unfolding rest_of
  behind p inside =
      let c = (pages_of_block _ rest p rest-IsPlaced).0 inside in
      (block.mapped p (omega arith, omega arith), λ d. omega arith)

  -- The other pages of the block belong to its first part.
  before_cut :
      (p : ℕ)
      → in_pages (rest.base_address / page_size) (page_count rest.region_size) p ≡ false
      → Covers (s.block id) p
      → Covers short p
  unfolding rest_of
  before_cut p outside c = elim (lt-or-le (p * page_size) ((s.block id).base_address + length)) [
    | inl lt ↦ (c.0, lt)
    | inr le ↦ let inside = (pages_of_block _ rest p rest-IsPlaced).1 (le, omega arith) in cc
  ]

  after_rest :
      (after.blocks ≡ s.blocks ++ s.next ∷ [])
      × (after.next ≡ s.next + 1)
      × (after.highest_address ≡ s.highest_address)
  unfolding after
  after_rest = (refl, refl, refl)

  rest-IsBlock : IsBlock after s.next
  rest-IsBlock = record {
    named = ground (arith, v.fresh);
    old = omega (arith, after_rest.1);
    placed = rw (is_rest, after_rest.2) rest-IsPlaced;
    mapped = λ p c.
        let inside = (pages_of_block _ rest p rest-IsPlaced).1 (rw is_rest at c) in
        xlate_after p ∙ rw inside;
  }

  short-IsPlaced : IsPlaced s.highest_address short
  short-IsPlaced = record {
    aligned = block.placed.aligned;
    whole = whole;
    some = some_left;
    within = omega (arith, block.placed.within);
    held = block.placed.held;
  }

  -- A page of a block other than the rest keeps its translation.
  keeps :
      (q p : ℕ)
      → s.xlate p ≡ q
      → (in_pages (rest.base_address / page_size) (page_count rest.region_size) p ≡ true → ⊥)
      → after.xlate p ≡ q
  keeps q p e outside =
      elim (Bool-cases (in_pages (rest.base_address / page_size) (page_count rest.region_size) p)) [
        | inl inside ↦ absurd (outside inside)
        | inr out ↦ xlate_after p ∙ rw out e
      ]

  short-IsBlock : IsBlock after id
  short-IsBlock = record {
    named = block.named;
    old = omega (arith, after_rest.1, block.old);
    placed = rw (is_short, after_rest.2) short-IsPlaced;
    mapped = λ p c.
        let c' : Covers short p = rw is_short at c in
        keeps id p (block.mapped p (c'.0, omega arith)) (λ inside. (behind p inside).1 c');
  }

  other-IsBlock : (q : ℕ) → q ≢ id → q ≢ s.next → IsBlock s q → IsBlock after q
  other-IsBlock q a n before =
      let same = is_other q a n in
      record {
        named = before.named;
        old = omega (arith, after_rest.1, before.old);
        placed = rw (same, after_rest.2) before.placed;
        mapped = λ p c.
            let e = before.mapped p (rw same at c) in
            keeps q p e (λ inside. a (sym e ∙ (behind p inside).0));
      }

  after-linked : (q : ℕ) → is_linked after.blocks q ≡ true → IsBlock after q
  after-linked q k = elim (Bool-cases (s.next == q)) [
    | inl e ↦ let same = ==→≡ _ _ e in rw (← same) rest-IsBlock
    | inr n ↦ elim (Bool-cases (id == q)) [
      | inl e ↦ let same = ==→≡ _ _ e in rw (← same) short-IsBlock
      | inr a ↦
          let was : is_linked s.blocks q ≡ true =
            ground
              (arith, ap (λ x. is_linked x q) after_rest.0, is_linked-append s.blocks s.next q) in
          other-IsBlock q (λ e. ==→≢ _ _ a (sym e)) (λ e. ==→≢ _ _ n (sym e)) (v.linked q was)
    ]
  ]

  -- Who owns a page after the cut, from who owned it before.
  owner_of :
      (p q : ℕ)
      → after.xlate p ≡ q
      → is_linked after.blocks q ≡ true
      → Covers (after.block q) p
      → (is_linked after.blocks (after.xlate p) ≡ true) × Covers (after.block (after.xlate p)) p
  owner_of p q e k c = rw e (k, c)

  still_linked : (q : ℕ) → is_linked s.blocks q ≡ true → is_linked after.blocks q ≡ true
  still_linked q k = rw after_rest.0 (is_linked-append s.blocks s.next q ∙ ground arith)

  after-owner :
      (p : ℕ)
      → after.xlate p ≢ 0
      → (is_linked after.blocks (after.xlate p) ≡ true) × Covers (after.block (after.xlate p)) p
  after-owner p used =
      elim (Bool-cases (in_pages (rest.base_address / page_size) (page_count rest.region_size) p)) [
        | inl inside ↦
            owner_of p s.next (xlate_after p ∙ rw inside)
              (rw after_rest.0 (is_linked-append s.blocks s.next s.next ∙ ground arith))
              (rw is_rest ((pages_of_block _ rest p rest-IsPlaced).0 inside))
        | inr out ↦
            let e : after.xlate p ≡ s.xlate p = xlate_after p ∙ rw out in
            let (was, c) = v.owner p (λ z. used (e ∙ z)) in
            elim (Bool-cases (id == s.xlate p)) [
              | inl own ↦
                  let same = ==→≡ _ _ own in
                  owner_of p id (e ∙ sym same) (still_linked id l)
                    (rw is_short (before_cut p out (rw (← same) at c)))
              | inr other ↦
                  let same =
                    is_other (s.xlate p) (λ z. ==→≢ _ _ other (sym z))
                      (λ (z : s.xlate p ≡ s.next).
                        absurd (omega (arith, (v.linked (s.xlate p) was).old))) in
                  owner_of p (s.xlate p) e (still_linked (s.xlate p) was) (rw same c)
            ]
      ]

  number_unlisted : is_linked s.blocks s.next ≡ false
  number_unlisted = elim (Bool-cases (is_linked s.blocks s.next)) [
    | inl k ↦ absurd (omega (arith, (v.linked s.next k).old))
    | inr k ↦ k
  ]

  after_total : total_size after after.blocks ≡ total_size s s.blocks
  unfolding rest_of
  after_total = omega (
    arith,
    ap (total_size after) after_rest.0,
    total_size-append after s.blocks s.next,
    ap (λ (b : MBlock). b.region_size) is_rest,
    ap (λ (b : MBlock). b.region_size) is_short,
    total_size-put s after s.blocks id v.distinct l (λ q n k.
        let same = is_other q n (λ (z : q ≡ s.next). absurd (omega (arith, (v.linked q k).old))) in
        ap (λ (b : MBlock). b.region_size) same),
  )

  in_use : (p : ℕ) → after.xlate p ≡ 0 → s.xlate p ≡ 0
  in_use p z =
      elim (Bool-cases (in_pages (rest.base_address / page_size) (page_count rest.region_size) p)) [
        | inl inside ↦ absurd (rest-IsBlock.named (sym (xlate_after p ∙ rw inside) ∙ z))
        | inr out ↦ sym (xlate_after p ∙ rw out) ∙ z
      ]

  after-IsCut : IsCut s after id length
  after-IsCut = record {
    valid = record {
      high = rw after_rest.2 v.high;
      fresh = omega (arith, after_rest.1);
      linked = after-linked;
      owner = after-owner;
      distinct = rw after_rest.0 (IsDistinct-append s.blocks s.next v.distinct number_unlisted);
      room = omega (arith, after_total, after_rest.2, v.room);
    };
    short = is_short;
    rest = is_rest;
    others = is_other;
    listed = after_rest.0;
    high = after_rest.2;
    next = after_rest.1;
    used = λ p.
        (λ z. in_use p z, λ z. keeps 0 p z (λ inside. block.named (sym (behind p inside).0 ∙ z)));
  }

  pub cut-IsCut : (s' : Space) × (cut s id length ≡ returns (s.next, s')) × IsCut s s' id length
  cut-IsCut = (after, cut_returns, after-IsCut)
