-- ===== src/Memory/Valid.antt =====
-- The invariant of an address space, and what enters and leaves it.
use ring3k.Prelude.{
  ℕ, ◌+◌, ◌*◌, ◌/◌, ◌%◌, ◌^◌, ◌≤◌, ◌<◌, ◌≡◌, ◌≢◌, refl, sym, ap, ◌∙◌, true, false, ◌==◌,
  if◌then◌else◌, Bool-cases, lt→ltb, ==→≡, inl, inr, ◌⊎◌, List, [], ◌∷◌, ◌++◌, arith,
}
use ring3k.Prelude.Checked.{returns}
use ring3k.Memory.Block.{MBlock, page_size, mem_reserve, mem_commit}
use ring3k.Memory.Space.{Space, page_count, blocks_are_good, total_size, verify}
use ring3k.Memory.Virtual.{is_linked}
use ring3k.Memory.Pages.{
  in_pages, pages_are-true, is_linked-append, IsDistinct, IsDistinct-append, total_size_eq,
  total_size-append,
}

-- Page `p` lies in the block.
abbrev pub Covers : MBlock → ℕ → Type 0
Covers b p = (b.base_address ≤ p * page_size) × (p * page_size < b.base_address + b.region_size)

-- A block of whole pages below `high`, in use.
pub record IsPlaced (high : ℕ) (b : MBlock) : Type 0 where
  pub aligned : b.base_address % page_size ≡ 0
  pub whole : b.region_size % page_size ≡ 0
  pub some : 0 < b.region_size
  pub within : b.base_address + b.region_size ≤ high
  pub held : (b.state ≡ mem_reserve) ⊎ (b.state ≡ mem_commit)

-- A listed block: it has a number, is placed, and all its pages translate to it.
pub record IsBlock (s : Space) (id : ℕ) : Type 0 where
  pub named : id ≢ 0
  pub old : id < s.next
  pub placed : IsPlaced s.highest_address (s.block id)
  pub mapped : (p : ℕ) → Covers (s.block id) p → s.xlate p ≡ id

-- The table and the list agree, so no two blocks overlap, and a page is free exactly if it
-- translates to 0. The blocks do not fill the space.
pub record IsValid (s : Space) : Type 0 where
  pub high : (s.highest_address % page_size ≡ 0) × (s.highest_address ≤ 2 ^ 31)
  pub fresh : 0 < s.next
  pub linked : (id : ℕ) → is_linked s.blocks id ≡ true → IsBlock s id
  pub owner :
      (p : ℕ)
      → s.xlate p ≢ 0
      → (is_linked s.blocks (s.xlate p) ≡ true) × Covers (s.block (s.xlate p)) p
  pub distinct : IsDistinct s.blocks
  pub room : total_size s s.blocks < s.highest_address

pub pages_of_block :
    (high : ℕ) (b : MBlock) (p : ℕ)
    → IsPlaced high b
    → (in_pages (b.base_address / page_size) (page_count b.region_size) p ≡ true → Covers b p)
      × (Covers b p → in_pages (b.base_address / page_size) (page_count b.region_size) p ≡ true)
pages_of_block high b p v =
    (λ h. ground (arith, v.aligned, v.whole), λ h. ground (arith, v.aligned, v.whole))

module _ (s : Space) (v : IsValid s) where
  blocks_are_good_lem :
      (xs : List ℕ)
      → ((id : ℕ) → is_linked xs id ≡ true → IsBlock s id)
      → blocks_are_good s xs ≡ true
  unfolding blocks_are_good is_linked
  blocks_are_good_lem [] h = refl
  blocks_are_good_lem (x ∷ xs) h =
      let block = h x (ground arith) in
      let pages =
        pages_are-true s.xlate ((s.block x).base_address / page_size)
          (page_count (s.block x).region_size) x
          (λ q a b.
            block.mapped q ((pages_of_block _ (s.block x) q block.placed).0 (ground arith))) in
      let rest = blocks_are_good_lem xs (λ id l. h id (ground arith)) in
      ground (arith, pages, rest, block.placed.held)

  -- The assertions of `verify` hold in a valid space.
  pub verify_lem : verify s ≡ returns tt
  unfolding verify
  verify_lem = rw (blocks_are_good_lem s.blocks v.linked, lt→ltb _ _ v.room)

-- `s'` is `s` with the block `b`, whose number is `s.next`, entered in the list and the table.
pub record IsEntered (s s' : Space) (b : MBlock) : Type 0 where
  pub high : s'.highest_address ≡ s.highest_address
  pub listed : s'.blocks ≡ s.blocks ++ s.next ∷ []
  pub next : s'.next ≡ s.next + 1
  pub block : (q : ℕ) → s'.block q ≡ (if s.next == q then b else s.block q)
  pub xlate :
      (p : ℕ)
      → s'.xlate p ≡ (
          if in_pages (b.base_address / page_size) (page_count b.region_size) p
          then s.next
          else s.xlate p)

module _ (s s' : Space) (b : MBlock) (v : IsValid s) (placed : IsPlaced s.highest_address b)
    (free : (p : ℕ) → Covers b p → s.xlate p ≡ 0) (e : IsEntered s s' b)
    (room : total_size s s.blocks + b.region_size < s.highest_address) where
  unlisted : is_linked s.blocks s.next ≡ false
  unlisted = elim (Bool-cases (is_linked s.blocks s.next)) [
    | inl l ↦ absurd (omega (arith, (v.linked s.next l).old))
    | inr l ↦ l
  ]

  entered-IsBlock : (id : ℕ) → is_linked s'.blocks id ≡ true → IsBlock s' id
  entered-IsBlock id l = elim (Bool-cases (s.next == id)) [
    | inl new ↦
        let same = ==→≡ _ _ new in
        let is_b : s'.block id ≡ b = e.block id ∙ rw new in
        record {
          named = ground (arith, v.fresh);
          old = omega (arith, e.next);
          placed = rw (is_b, e.high) placed;
          mapped = λ p c.
              let inside = (pages_of_block _ b p placed).1 (rw is_b at c) in
              e.xlate p ∙ rw (inside, same);
        }
    | inr old ↦
        let was : is_linked s.blocks id ≡ true =
          ground (arith, ap (λ l. is_linked l id) e.listed, is_linked-append s.blocks s.next id) in
        let before = v.linked id was in
        let is_same : s'.block id ≡ s.block id = e.block id ∙ rw old in
        record {
          named = before.named;
          old = omega (arith, e.next, before.old);
          placed = rw (is_same, e.high) before.placed;
          mapped = λ p c. kept id before p (rw is_same at c);
        }
  ]
    where
      kept : (id : ℕ) → IsBlock s id → (p : ℕ) → Covers (s.block id) p → s'.xlate p ≡ id
      kept id before p c =
          let old = before.mapped p c in
          elim (Bool-cases (in_pages (b.base_address / page_size) (page_count b.region_size) p)) [
            | inl inside ↦
                let none = free p ((pages_of_block _ b p placed).0 inside) in
                absurd (before.named (sym old ∙ none))
            | inr outside ↦ e.xlate p ∙ rw outside old
          ]

  entered-owner :
      (p : ℕ)
      → s'.xlate p ≢ 0
      → (is_linked s'.blocks (s'.xlate p) ≡ true) × Covers (s'.block (s'.xlate p)) p
  entered-owner p used =
      elim (Bool-cases (in_pages (b.base_address / page_size) (page_count b.region_size) p)) [
        | inl inside ↦
            let is_new : s'.xlate p ≡ s.next = e.xlate p ∙ rw inside in
            let is_b : s'.block s.next ≡ b = e.block s.next ∙ ground arith in
            rw (is_new, e.listed, is_b)
              (
                is_linked-append s.blocks s.next s.next ∙ ground arith,
                (pages_of_block _ b p placed).0 inside,
              )
        | inr outside ↦
            let is_old : s'.xlate p ≡ s.xlate p = e.xlate p ∙ rw outside in
            let (was, covers) = v.owner p (λ z. used (is_old ∙ z)) in
            let other : (s.next == s.xlate p) ≡ false =
              ground (arith, (v.linked (s.xlate p) was).old) in
            let is_same : s'.block (s.xlate p) ≡ s.block (s.xlate p) =
              e.block (s.xlate p) ∙ rw other in
            rw (is_old, e.listed, is_same)
              (is_linked-append s.blocks s.next (s.xlate p) ∙ ground (arith, was), covers)
      ]

  -- A block on free pages may enter, if the space does not become full.
  pub IsEntered-IsValid : IsValid s'
  IsEntered-IsValid =
      let is_b : s'.block s.next ≡ b = e.block s.next ∙ ground arith in
      let total : total_size s' s.blocks ≡ total_size s s.blocks =
        total_size_eq s' s s.blocks (λ id l.
          let same : s'.block id ≡ s.block id = e.block id ∙ ground (arith, (v.linked id l).old) in
          ap (λ (x : MBlock). x.region_size) same) in
      record {
        high = rw e.high v.high;
        fresh = omega (arith, e.next);
        linked = entered-IsBlock;
        owner = entered-owner;
        distinct = rw e.listed (IsDistinct-append s.blocks s.next v.distinct unlisted);
        room = omega (
          arith,
          ap (total_size s') e.listed,
          total_size-append s' s.blocks s.next,
          ap (λ (x : MBlock). x.region_size) is_b,
          e.high,
        );
      }
