-- ===== src/Memory/Release.antt =====
-- `free_shared` of kernel/mem.cpp: a block leaves the space.
use ring3k.Prelude.{
  ℕ, ◌+◌, ◌/◌, ◌≡◌, ◌≢◌, refl, sym, ap, ◌∙◌, true, not, ◌&&◌, ◌==◌, if◌then◌else◌, Bool-cases, inl,
  inr, arith,
}
use ring3k.Prelude.Checked.{returns}
use ring3k.Memory.Block.{MBlock, page_size, mem_free, uncommit, unreserve}
use ring3k.Memory.Space.{
  Space, put, page_count, set_pages, total_size, unlink, update_page_translation, remove_block,
  free_shared,
}
use ring3k.Memory.Virtual.{is_linked}
use ring3k.Memory.Pages.{
  in_pages, set_pages_lem, is_linked-unlink, IsDistinct-unlink, total_size-unlink, total_size_eq,
}
use ring3k.Memory.Valid.{Covers, IsBlock, IsValid, pages_of_block}

-- `s'` is `s` without block `id`, whose pages are free.
pub record IsReleased (s s' : Space) (id : ℕ) : Type 0 where
  pub valid : IsValid s'
  pub listed : (q : ℕ) → is_linked s'.blocks q ≡ (not (id == q) && is_linked s.blocks q)
  pub others : (q : ℕ) → q ≢ id → s'.block q ≡ s.block q
  pub high : s'.highest_address ≡ s.highest_address
  pub xlate :
      (p : ℕ)
      → (Covers (s.block id) p → s'.xlate p ≡ 0)
        × (¬ Covers (s.block id) p → s'.xlate p ≡ s.xlate p)

module _ (s : Space) (v : IsValid s) (id : ℕ) (l : is_linked s.blocks id ≡ true) where
  block : IsBlock s id
  block = v.linked id l

  -- The block as `unreserve` leaves it.
  gone : MBlock
  unfolding uncommit
  gone = record (uncommit (s.block id)) { protect = 0; state = mem_free; kind = 0 }

  gone_lem :
      (unreserve (uncommit (s.block id)) ≡ returns gone)
      × (gone.base_address ≡ (s.block id).base_address)
      × (gone.region_size ≡ (s.block id).region_size)
      × (gone.state ≡ mem_free)
  unfolding unreserve gone uncommit
  gone_lem = (ground (arith, block.placed.held), ground arith, ground arith, refl)

  left : Space
  left = record s {
    block = put s.block id gone;
    xlate =
        set_pages s.xlate ((s.block id).base_address / page_size)
          (page_count (s.block id).region_size) 0;
    blocks = unlink id s.blocks;
  }

  free_shared_returns : free_shared s id ≡ returns left
  unfolding free_shared update_page_translation remove_block left
  free_shared_returns =
      let (e, base, size, is_free) = gone_lem in
      let stored : put s.block id gone id ≡ gone = ground arith in
      rw (e, stored, base, size, is_free)

  left_rest :
      ((q : ℕ) → is_linked left.blocks q ≡ (not (id == q) && is_linked s.blocks q))
      × ((q : ℕ) → q ≢ id → left.block q ≡ s.block q)
      × (left.highest_address ≡ s.highest_address)
      × (left.next ≡ s.next)
      × (left.blocks ≡ unlink id s.blocks)
      × ((p : ℕ)
          → left.xlate p ≡ (
              if in_pages
                ((s.block id).base_address / page_size)
                (page_count (s.block id).region_size)
                p
              then 0
              else s.xlate p))
  unfolding left
  left_rest = (
    λ q. is_linked-unlink s.blocks id q v.distinct,
    λ q n. ground arith,
    refl,
    refl,
    refl,
    λ p. set_pages_lem s.xlate _ _ 0 p,
  )

  left-linked : (q : ℕ) → is_linked left.blocks q ≡ true → IsBlock left q
  left-linked q k =
      let was : is_linked s.blocks q ≡ true = ground (arith, left_rest.0 q) in
      let other : q ≢ id = λ (e : q ≡ id). ground (arith, left_rest.0 q) in
      let before = v.linked q was in
      let same = left_rest.1 q other in
      record {
        named = before.named;
        old = omega (arith, left_rest.3, before.old);
        placed = rw (same, left_rest.2) before.placed;
        mapped = λ p c.
            let e = before.mapped p (rw same at c) in
            elim (Bool-cases (
              in_pages ((s.block id).base_address / page_size) (page_count (s.block id).region_size)
                p)) [
                  | inl inside ↦ absurd (
                      other (
                        sym e
                        ∙ block.mapped p ((pages_of_block _ (s.block id) p block.placed).0 inside)))
                  | inr out ↦ left_rest.5 p ∙ rw out e
                ];
      }

  left-owner :
      (p : ℕ)
      → left.xlate p ≢ 0
      → (is_linked left.blocks (left.xlate p) ≡ true) × Covers (left.block (left.xlate p)) p
  left-owner p used =
      elim (Bool-cases (
        in_pages ((s.block id).base_address / page_size) (page_count (s.block id).region_size) p)) [
          | inl inside ↦ absurd (used (left_rest.5 p ∙ rw inside))
          | inr out ↦
              let e : left.xlate p ≡ s.xlate p = left_rest.5 p ∙ rw out in
              let (was, c) = v.owner p (λ z. used (e ∙ z)) in
              let other : s.xlate p ≢ id = λ (z : s.xlate p ≡ id).
                let inside = (pages_of_block _ (s.block id) p block.placed).1 (rw z at c) in cc in
              rw (e, left_rest.1 (s.xlate p) other) (left_rest.0 (s.xlate p) ∙ ground arith, c)
        ]

  left_total : total_size left left.blocks + (s.block id).region_size ≡ total_size s s.blocks
  left_total =
      let gone_from = total_size-unlink s s.blocks id l in
      let same : total_size left (unlink id s.blocks) ≡ total_size s (unlink id s.blocks) =
        total_size_eq left s (unlink id s.blocks) (λ q k.
          let other : q ≢ id =
            λ (e : q ≡ id). ground (arith, is_linked-unlink s.blocks id q v.distinct) in
          ap (λ (b : MBlock). b.region_size) (left_rest.1 q other)) in
      omega (arith, ap (total_size left) left_rest.4)

  pub free_shared-IsReleased : (s' : Space) × (free_shared s id ≡ returns s') × IsReleased s s' id
  free_shared-IsReleased = (
    left,
    free_shared_returns,
    record {
      valid = record {
        high = rw left_rest.2 v.high;
        fresh = omega (arith, left_rest.3, v.fresh);
        linked = left-linked;
        owner = left-owner;
        distinct = rw left_rest.4 (IsDistinct-unlink s.blocks id v.distinct);
        room = omega (arith, left_total, left_rest.2, v.room);
      };
      listed = left_rest.0;
      others = left_rest.1;
      high = left_rest.2;
      xlate = λ p. (
        λ c. left_rest.5 p ∙ rw ((pages_of_block _ (s.block id) p block.placed).1 c),
        λ n. left_rest.5 p ∙ ground (arith, n, (pages_of_block _ (s.block id) p block.placed).0),
      );
    },
  )
