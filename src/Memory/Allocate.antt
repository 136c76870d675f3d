-- ===== src/Memory/Allocate.antt =====
-- `allocate_virtual_memory` of kernel/mem.cpp, past its checks, on a free area.
use ring3k.Prelude.{
  ℕ, ◌+◌, ◌/◌, ◌%◌, ◌≤◌, ◌<◌, ◌≡◌, ◌≢◌, refl, sym, ◌∙◌, true, false, leb, ltb, ◌==◌, if◌then◌else◌,
  Bool-cases, ≡→==, inl, inr, some, arith,
}
use ring3k.Prelude.Checked.{returns}
use ring3k.Status.{status_success}
use ring3k.Memory.Block.{
  MBlock, page_size, mem_reserve, mem_commit, mem_private, has_bit, commit_bit, is_free, new_block,
  reserve, commit, local_map,
}
use ring3k.Memory.Space.{
  Space, xlate_entry, put, store, page_count, pages_are, total_size, update_page_translation,
  insert_block, allocate_block,
}
use ring3k.Memory.Search.{get_mem_region, word_mod}
use ring3k.Memory.Virtual.{
  is_linked, reserve_if_free, commit_if, set_block_state, block_at, allocate_at,
}
use ring3k.Memory.Pages.{in_pages, set_pages_lem, pages_are-true, is_linked-append}
use ring3k.Memory.Valid.{IsPlaced, IsValid, IsEntered, IsEntered-IsValid, verify_lem}
use ring3k.Memory.Free.{In}

module _ (s : Space) (start length state prot k : ℕ) (v : IsValid s)
    (aligned : start % page_size ≡ 0) (whole : length % page_size ≡ 0) (some_left : 0 < length)
    (inside : start + length ≤ s.highest_address)
    (free : (p : ℕ) → In start length p → s.xlate p ≡ 0)
    (room : total_size s s.blocks + length < s.highest_address) (host : s.host s.next ≡ some k)
    (made : s.file s.next ≡ true) where
  -- The area is free, so `get_mem_region` accepts it whether it is to be reserved or not.
  region_free : get_mem_region s start length state ≡ returns status_success
  unfolding get_mem_region
  region_free =
      let none_here : xlate_entry s start ≡ 0 =
        free (start / page_size) (omega arith, omega arith) in
      let same : pages_are s.xlate (start / page_size) (page_count length) 0 ≡ true =
        pages_are-true s.xlate (start / page_size) (page_count length) 0
          (λ q a b. free q (omega arith, omega arith)) in
      let below : leb s.highest_address start ≡ false = ground arith in
      let ends : ltb s.highest_address ((start + length) % word_mod) ≡ false =
        ground (arith, v.high) in
      let some_left' : (length == 0) ≡ false = ground arith in
      rw (verify_lem s v, none_here, same, below, ends, some_left') (ground arith)

  -- The new block, reserved, and then committed if that was asked.
  reserved : MBlock
  unfolding new_block
  reserved = record (new_block start length s.next) {
    state = mem_reserve;
    protect = 0;
    kind = mem_private;
  }

  final : MBlock
  unfolding reserved
  final =
      if has_bit state commit_bit
      then record reserved {
        state = mem_commit;
        protect = prot;
        kind = mem_private;
        kernel_address = k;
      }
      else reserved

  final_lem :
      (final.base_address ≡ start)
      × (final.region_size ≡ length)
      × (final.state ≡ (if has_bit state commit_bit then mem_commit else mem_reserve))
  unfolding final
  final_lem = (ground arith, ground arith, ground arith)

  -- The space after `block_at`, and after the block was reserved.
  listed : Space
  unfolding insert_block
  listed = insert_block (allocate_block s (new_block start length s.next)) s.next

  held : Space
  unfolding listed update_page_translation
  held = update_page_translation (store listed s.next reserved) s.next

  done : Space
  unfolding held
  done = if has_bit state commit_bit then store held s.next final else held

  fresh : s.next ≢ 0
  fresh = ground (arith, v.fresh)

  put_same : {A : Type 0} → (f : ℕ → A) → (x : A) → put f s.next x s.next ≡ x
  put_same f x = ground arith

  reserves : reserve_if_free listed s.next ≡ returns held
  unfolding reserve_if_free listed held reserve new_block insert_block reserved
  reserves = rw (put_same s.block (new_block start length s.next))

  held_block : held.block s.next ≡ reserved
  unfolding held listed update_page_translation insert_block
  held_block = ground arith

  held_host : held.host s.next ≡ s.host s.next
  unfolding held listed update_page_translation insert_block
  held_host = refl

  commits_new : has_bit state commit_bit ≡ true → commit_if held s.next state prot ≡ returns done
  unfolding commit_if commit local_map done final reserved new_block
  commits_new asked =
      let same_host : held.host s.next ≡ some k = held_host ∙ host in
      let unnamed : (s.next == 0) ≡ false = ground (arith, fresh) in
      rw (asked, held_block, same_host, unnamed)

  commits : commit_if held s.next state prot ≡ returns done
  unfolding commit_if done
  commits = elim (Bool-cases (has_bit state commit_bit)) [
    | inl asked ↦ commits_new asked
    | inr kept ↦ rw kept
  ]

  held_xlate :
      (p : ℕ)
      → held.xlate p
        ≡ (if in_pages (start / page_size) (page_count length) p then s.next else s.xlate p)
  unfolding held listed update_page_translation insert_block reserved new_block
  held_xlate p =
      rw (put_same (put s.block s.next (new_block start length s.next)) reserved)
        (set_pages_lem s.xlate (start / page_size) (page_count length) s.next p)

  done_xlate :
      (p : ℕ)
      → done.xlate p ≡ (
          if in_pages (final.base_address / page_size) (page_count final.region_size) p
          then s.next
          else s.xlate p)
  unfolding done
  done_xlate p =
      let (base, size, _) = final_lem in
      elim (Bool-cases (has_bit state commit_bit)) [
        | inl asked ↦ rw (asked, base, size) (held_xlate p)
        | inr kept ↦ rw (kept, base, size) (held_xlate p)
      ]

  In-area :
      (p : ℕ)
      → (In start length p → in_pages (start / page_size) (page_count length) p ≡ true)
        × (¬ In start length p → in_pages (start / page_size) (page_count length) p ≡ false)
  In-area p = (
    λ h. ground (arith, aligned, whole),
    λ n. elim (Bool-cases (in_pages (start / page_size) (page_count length) p)) [
      | inl inside ↦ absurd (n (ground (arith, aligned, whole)))
      | inr outside ↦ outside
    ],
  )

  done-IsEntered : IsEntered s done final
  unfolding done held listed final
  done-IsEntered = record {
    high = ground arith;
    listed = ground arith;
    next = ground arith;
    block = λ q. ground arith;
    xlate = done_xlate;
  }

  final-IsPlaced : IsPlaced s.highest_address final
  unfolding final reserved new_block
  final-IsPlaced = record {
    aligned = rw final_lem.0 aligned;
    whole = rw final_lem.1 whole;
    some = rw final_lem.1 some_left;
    within = rw (final_lem.0, final_lem.1) inside;
    held = ground (arith, final_lem.2);
  }

  done-IsValid : IsValid done
  done-IsValid =
      let (base, size, _) = final_lem in
      IsEntered-IsValid s done final v final-IsPlaced (λ p c. free p (rw (base, size) at c))
        done-IsEntered (rw size room)

  block_at_returns : block_at s start length ≡ returns (s.next, listed)
  unfolding block_at listed
  block_at_returns =
      let none_here : (xlate_entry s start == 0) ≡ true =
        ≡→== _ _ (free (start / page_size) (omega arith, omega arith)) in
      rw (none_here, made)

  done_block : done.block s.next ≡ final
  done_block = done-IsEntered.block s.next ∙ ground arith

  sets : set_block_state listed s.next state prot ≡ returns (status_success, done)
  unfolding set_block_state
  sets =
      let used : is_free (done.block s.next) ≡ false =
        rw done_block (ground (arith, final-IsPlaced.held)) in
      rw (reserves, commits, used, verify_lem done done-IsValid)

  listed_new :
      (is_linked listed.blocks s.next ≡ true)
      × ((listed.block s.next).base_address ≡ start)
      × ((listed.block s.next).region_size ≡ length)
  unfolding listed insert_block new_block
  listed_new = (is_linked-append s.blocks s.next s.next ∙ ground arith, ground arith, ground arith)

  -- On a free area of whole pages in a valid space, if the blocks with it are smaller than the
  -- space and the host can make a file for a new block and map it, `allocate_virtual_memory` past its checks succeeds: the
  -- area's pages, and no others, translate to a new block of that area, which is reserved, or
  -- committed if that was asked, and the space is valid.
  pub allocate_at_lem :
      (s' : Space) × (allocate_at s start length state prot ≡ returns (status_success, s'))
      × IsValid s'
      × ((p : ℕ)
          → (In start length p → s'.xlate p ≡ s.next)
            × (¬ In start length p → s'.xlate p ≡ s.xlate p))
      × ((s'.block s.next).base_address ≡ start)
      × ((s'.block s.next).region_size ≡ length)
      × ((s'.block s.next).state ≡ (if has_bit state commit_bit then mem_commit else mem_reserve))
  unfolding allocate_at
  allocate_at_lem =
      let (base, size, is) = final_lem in
      let (l, at, long) = listed_new in
      let at' : (start == (listed.block s.next).base_address) ≡ true = ≡→== _ _ (sym at) in
      let long' : (length == (listed.block s.next).region_size) ≡ true = ≡→== _ _ (sym long) in
      (
        done,
        rw (region_free, block_at_returns, l, at', long') sets,
        done-IsValid,
        λ p. (
          λ c. done_xlate p ∙ rw (base, size, (In-area p).0 c),
          λ n. done_xlate p ∙ rw (base, size, (In-area p).1 n),
        ),
        rw (done_block, base),
        rw (done_block, size),
        rw (done_block, is),
      )
