-- ===== src/Memory/Requests.antt =====
-- `allocate_virtual_memory` where the caller leaves the address open.
use ring3k.Prelude.{
  ℕ, suc, ◌+◌, ◌-◌, ◌*◌, ◌/◌, ◌%◌, ◌^◌, ◌≤◌, ◌<◌, ◌≡◌, ◌≢◌, refl, true, false, leb, ltb, ◌==◌, inl,
  inr, ◌⊎◌, some, arith,
}
use ring3k.Prelude.Checked.{returns}
use ring3k.Status.{status_success, status_no_memory}
use ring3k.Memory.Block.{
  page_size, has_bit, top_down_bit, mem_allocation_type_is_valid, mem_protection_is_valid,
}
use ring3k.Memory.Space.{Space, xlate_entry, total_size}
use ring3k.Memory.Search.{
  Search, found, no_memory, out_of_bounds, out_of_fuel, chunk, word_mod, find_free_area, next_down,
  search_down, round_up, check_params,
}
use ring3k.Memory.Virtual.{choose_start, allocate_at, allocate_virtual_memory}
use ring3k.Memory.Valid.{IsValid}
use ring3k.Memory.Free.{In}
use ring3k.Memory.Allocate.{allocate_at_lem}
use ring3k.Memory.FreeArea.{IsFreeArea, NoneBelow, FirstFree, find_free_area-FirstFree}

module _ (s : Space) (length state prot k : ℕ) (v : IsValid s) (whole : length % page_size ≡ 0)
    (some_left : 0 < length) (kind : mem_allocation_type_is_valid state ≡ true)
    (protection : mem_protection_is_valid prot ≡ true)
    (upwards : has_bit state top_down_bit ≡ false)
    (room : total_size s s.blocks + length < s.highest_address) (host : s.host s.next ≡ some k)
    (made : s.file s.next ≡ true) where
  passes : check_params s 0 length state prot ≡ returns status_success
  unfolding check_params
  passes =
      let some' : (length == 0) ≡ false = ground arith in
      let whole' : (length % page_size == 0) ≡ true = ground arith in
      let fits : ltb s.highest_address length ≡ false = ground arith in
      let low : ltb s.highest_address 0 ≡ false = ground arith in
      rw (some', whole', fits, low, kind, protection)

  small : length ≤ 2 ^ 31
  small = omega (arith, v.high)

  placed :
      (base : ℕ)
      → base % page_size ≡ 0
      → IsFreeArea s base length
      → (s' : Space) × (allocate_at s base length state prot ≡ returns (status_success, s'))
        × IsValid s'
        × ((p : ℕ)
            → (In base length p → s'.xlate p ≡ s.next)
              × (¬ In base length p → s'.xlate p ≡ s.xlate p))
  unfolding IsFreeArea
  placed base aligned (inside, free) =
      let (s', runs, valid, pages, _, _, _) =
        allocate_at_lem s base length state prot k v aligned whole some_left inside free room host
          made in
      (s', runs, valid, pages)

  after_search :
      (r : Search)
      → find_free_area s length false ≡ r
      → FirstFree s length r
      → ((base : ℕ) × (s' : Space) × (allocate_virtual_memory s 0 length state prot
            ≡ returns (status_success, base, s'))
          × IsValid s'
          × (base % chunk ≡ 0)
          × IsFreeArea s base length
          × NoneBelow s length base
          × ((p : ℕ)
              → (In base length p → s'.xlate p ≡ s.next)
                × (¬ In base length p → s'.xlate p ≡ s.xlate p)))
        ⊎ (allocate_virtual_memory s 0 length state prot ≡ returns (status_no_memory, 0, s))
          × ((b : ℕ) → b % chunk ≡ 0 → ¬ IsFreeArea s b length)
  unfolding allocate_virtual_memory choose_start FirstFree
  after_search (found base) e (at_chunk, area, lowest) =
      let aligned : base % page_size ≡ 0 = omega (arith, at_chunk) in
      let (s', runs, valid, pages) = placed base aligned area in
      inl (base, s', rw (passes, upwards, e, runs), valid, at_chunk, area, lowest, pages)
  after_search no_memory e none_free = inr (rw (passes, upwards, e), none_free)
  after_search out_of_bounds e impossible = absurd impossible
  after_search out_of_fuel e impossible = absurd impossible

  -- In a valid space whose blocks and the request together are smaller than the space, and if the
  -- host can make a file for a new block and map it, a request for whole pages at any address, with valid flags and from
  -- the bottom up, ends. It succeeds at the lowest 64K boundary with enough free pages, and the
  -- pages there, and no others, then translate to the new block. Or no such area is free, the
  -- status is STATUS_NO_MEMORY, and the space is unchanged.
  pub allocate_virtual_memory_lem :
      ((base : ℕ) × (s' : Space) × (allocate_virtual_memory s 0 length state prot
          ≡ returns (status_success, base, s'))
        × IsValid s'
        × (base % chunk ≡ 0)
        × IsFreeArea s base length
        × NoneBelow s length base
        × ((p : ℕ)
            → (In base length p → s'.xlate p ≡ s.next)
              × (¬ In base length p → s'.xlate p ≡ s.xlate p)))
      ⊎ (allocate_virtual_memory s 0 length state prot ≡ returns (status_no_memory, 0, s))
        × ((b : ℕ) → b % chunk ≡ 0 → ¬ IsFreeArea s b length)
  allocate_virtual_memory_lem =
      after_search (find_free_area s length false) refl
        (find_free_area-FirstFree s length v whole some_left small)

-- The second round of the downward search reads behind the table.
second_round :
    (fuel : ℕ) (s : Space) (length start : ℕ)
    → s.highest_address ≤ 2 ^ 31
    → length ≤ s.highest_address
    → 0 < start
    → start < s.highest_address
    → xlate_entry s start ≢ 0
    → (s.block (xlate_entry s start)).base_address < length
    → search_down (suc (suc fuel)) s length start 0 ≡ out_of_bounds
unfolding search_down next_down
second_round fuel s length start high fits positive below used low =
    let first : (start + 0) % word_mod ≡ start = omega arith in
    let long : leb length 0 ≡ false = ground arith in
    let nonzero : (start == 0) ≡ false = ground arith in
    let inside : leb s.highest_address start ≡ false = ground arith in
    let used' : (xlate_entry s start == 0) ≡ false = ground arith in
    let base = (s.block (xlate_entry s start)).base_address in
    let next : (base + word_mod - length) % word_mod ≡ base + word_mod - length = omega arith in
    let second : (base + word_mod - length + 0) % word_mod ≡ base + word_mod - length =
      omega arith in
    let nonzero' : (base + word_mod - length == 0) ≡ false = ground arith in
    let outside : leb s.highest_address (base + word_mod - length) ≡ true = ground arith in
    rw (first, long, nonzero, inside, used', next, second, nonzero', outside) (rw long)

-- The search from the top down goes wrong if the page where it starts belongs to a block whose base
-- is less than the length asked for: the next start wraps round, and the page table is read
-- behind its end.
pub top_down_out_of_bounds :
    (s : Space) (length : ℕ)
    → IsValid s
    → length % page_size ≡ 0
    → length ≤ s.highest_address
    → let start = (s.highest_address - length) / chunk * chunk in
      0 < start
      → start < s.highest_address
      → xlate_entry s start ≢ 0
      → (s.block (xlate_entry s start)).base_address < length
      → find_free_area s length true ≡ out_of_bounds
unfolding find_free_area
top_down_out_of_bounds s length v whole fits positive below used low =
    let same : round_up length ≡ length = omega (arith, v.high) in
    let first : (s.highest_address + word_mod - length) % word_mod ≡ s.highest_address - length =
      omega (arith, v.high) in
    let rounds : s.highest_address + 2 ≡ suc (suc s.highest_address) = omega arith in
    rw (same, first, rounds)
      (second_round s.highest_address s length _ v.high.1 fits positive below used low)
