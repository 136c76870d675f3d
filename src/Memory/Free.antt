-- ===== src/Memory/Free.antt =====
-- `free_virtual_memory` of kernel/mem.cpp, on a part of a block.
use ring3k.Prelude.{
  ℕ, ◌+◌, ◌-◌, ◌*◌, ◌/◌, ◌%◌, ◌≤◌, ◌<◌, ◌≡◌, ◌≢◌, sym, ap, ◌∙◌, true, false, leb, ltb, ◌==◌, arith,
}
use ring3k.Prelude.Checked.{returns, aborts, ◌>>=◌}
use ring3k.Status.{status_success}
use ring3k.Memory.Block.{MBlock, page_size, split, rest_of}
use ring3k.Memory.Space.{Space, xlate_entry, free_shared, verify, get_mblock, split_area, cut}
use ring3k.Memory.Virtual.{is_linked, free_virtual_memory}
use ring3k.Memory.Valid.{Covers, IsBlock, IsValid, verify_lem}
use ring3k.Memory.Split.{split_area-IsPart}
use ring3k.Memory.Cut.{cut-IsCut}
use ring3k.Memory.Release.{free_shared-IsReleased}

-- Page `p` lies in the area of `length` bytes at `start`.
abbrev pub In : ℕ → ℕ → ℕ → Type 0
In start length p = (start ≤ p * page_size) × (p * page_size < start + length)

cut_too_long :
    (s : Space) (id length : ℕ)
    → length % page_size ≡ 0
    → 0 < length
    → (s.block id).region_size < length
    → cut s id length ≡ aborts
unfolding cut split
cut_too_long s id length whole some_left short =
    let least : leb page_size length ≡ true = ground arith in
    let aligned : (length % page_size == 0) ≡ true = ground arith in
    let differ : ((s.block id).region_size == length) ≡ false = ground arith in
    let not_under : ltb length (s.block id).region_size ≡ false = ground arith in
    rw (least, aligned, differ, not_under)

module _ (s : Space) (start length : ℕ) (v : IsValid s) (aligned : start % page_size ≡ 0)
    (whole : length % page_size ≡ 0) (some_start : 0 < start) (some_left : 0 < length)
    (below : start < s.highest_address) (used : xlate_entry s start ≢ 0) where
  abbrev id : ℕ
  id = xlate_entry s start

  is_owner : (is_linked s.blocks id ≡ true) × Covers (s.block id) (start / page_size)
  is_owner = v.owner (start / page_size) used

  block : IsBlock s id
  block = v.linked id is_owner.0

  -- The tests at the head of `free_virtual_memory` pass.
  passed :
      length ≤ s.highest_address
      → length ≤ (s.block id).region_size
      → free_virtual_memory s start length ≡ (
          split_area s id start length >>= λ mb.
          free_shared mb.1 mb.0 >>= λ s'. verify s' >>= λ _. returns (status_success, s'))
  unfolding free_virtual_memory get_mblock
  passed small fits =
      let whole' : (length % page_size == 0) ≡ true = ground arith in
      let aligned' : (start % page_size == 0) ≡ true = ground arith in
      let nonzero : (start == 0) ≡ false = ground arith in
      let small' : ltb s.highest_address length ≡ false = ground arith in
      let some_left' : (length == 0) ≡ false = ground arith in
      let below' : ltb s.highest_address start ≡ false = ground arith in
      let inside : leb s.highest_address start ≡ false = ground arith in
      let used' : (xlate_entry s start == 0) ≡ false = ground arith in
      let fits' : ltb (s.block id).region_size length ≡ false = ground arith in
      rw (
        whole',
        aligned',
        nonzero,
        small',
        some_left',
        below',
        verify_lem s v,
        inside,
        used',
        fits',
      )

  -- A part of whole pages that ends inside the block where it starts is freed, without failure:
  -- its pages become free, every other page is in use exactly if it was, and the space is valid.
  pub free_virtual_memory_lem :
      start + length
        ≤ (s.block (xlate_entry s start)).base_address + (s.block (xlate_entry s start)).region_size
      → (s' : Space) × (free_virtual_memory s start length ≡ returns (status_success, s'))
        × IsValid s'
        × ((p : ℕ) → In start length p → s'.xlate p ≡ 0)
        × ((p : ℕ)
            → ¬ In start length p
            → (s'.xlate p ≡ 0 → s.xlate p ≡ 0) × (s.xlate p ≡ 0 → s'.xlate p ≡ 0))
  free_virtual_memory_lem ends =
      let first = is_owner.1 in
      let (m, s1, e1, part) =
        split_area-IsPart s id start length v is_owner.0 aligned whole some_left (omega arith)
          ends in
      let (s2, e2, released) = free_shared-IsReleased s1 part.valid m part.linked in
      (
        s2,
        passed (omega (arith, block.placed.within)) (omega arith)
            ∙ rw (e1, e2, verify_lem s2 released.valid),
        released.valid,
        λ p c. (released.xlate p).0 (rw (part.starts, part.long) c),
        λ p n.
            let out = (released.xlate p).1 (rw (part.starts, part.long) n) in
            (λ z. (part.used p).0 (sym out ∙ z), λ z. out ∙ (part.used p).1 z),
      )

  -- A part no longer than the block, but that starts inside it and ends behind it, passes the
  -- tests, and an assertion fails when the block is split.
  pub free_virtual_memory_past_end :
      length ≤ (s.block (xlate_entry s start)).region_size
      → (s.block (xlate_entry s start)).base_address + (s.block (xlate_entry s start)).region_size
        < start + length
      → free_virtual_memory s start length ≡ aborts
  unfolding split_area rest_of
  free_virtual_memory_past_end fits past =
      let first = is_owner.1 in
      let front = start - (s.block id).base_address in
      let (s1, e1, c) =
        cut-IsCut s v id front is_owner.0 (omega (arith, block.placed.aligned)) (omega arith)
          (omega arith) in
      let least : leb page_size length ≡ true = ground arith in
      let whole' : (length % page_size == 0) ≡ true = ground arith in
      let aligned' : (start % page_size == 0) ≡ true = ground arith in
      let starts' : leb (s.block id).base_address start ≡ true = ground arith in
      let ends' : leb start ((s.block id).base_address + (s.block id).region_size) ≡ true =
        ground arith in
      let differ : ((s.block id).base_address == start) ≡ false = ground arith in
      let size1 : (s1.block s.next).region_size ≡ (s.block id).region_size - front =
        ap (λ (b : MBlock). b.region_size) c.rest in
      let shorter : ((s1.block s.next).region_size == length) ≡ false = ground arith in
      let fails = cut_too_long s1 s.next length whole some_left (omega arith) in
      passed (omega (arith, block.placed.within)) fits
      ∙ rw (least, whole', aligned', starts', ends', differ, e1, shorter, fails)
