-- ===== src/Memory/FreeArea.antt =====
-- The upward search of `find_free_area` in kernel/mem.cpp.
use ring3k.Prelude.{
  ℕ, zero, suc, ◌+◌, ◌*◌, ◌/◌, ◌%◌, ◌^◌, ◌≤◌, ◌<◌, ◌≡◌, ◌≢◌, refl, sym, ◌∙◌, true, false, leb, ◌==◌,
  Bool-cases, lt-or-le, ==→≡, ==→≢, inl, inr, ◌⊎◌, arith,
}
use ring3k.Memory.Block.{page_size}
use ring3k.Memory.Space.{Space, xlate_entry}
use ring3k.Memory.Search.{
  Search, found, no_memory, out_of_bounds, out_of_fuel, chunk, end_of, next_up, search_up, round_up,
  find_free_area,
}
use ring3k.Memory.Valid.{IsBlock, IsValid}
use ring3k.Memory.Free.{In}

-- An area below the highest address, none of whose pages is in use.
unfoldable pub IsFreeArea : Space → ℕ → ℕ → Type 0
IsFreeArea s start length =
    (start + length ≤ s.highest_address) × ((p : ℕ) → In start length p → s.xlate p ≡ 0)

-- No start on a 64K boundary below `bound` has a free area.
pub NoneBelow : Space → ℕ → ℕ → Type 0
NoneBelow s length bound = (b : ℕ) → b < bound → b % chunk ≡ 0 → ¬ IsFreeArea s b length

-- The lowest free area on a 64K boundary, or the fact that there is none.
unfoldable pub FirstFree : Space → ℕ → Search → Type 0
FirstFree s length (found b) = (b % chunk ≡ 0) × IsFreeArea s b length × NoneBelow s length b
FirstFree s length no_memory = (b : ℕ) → b % chunk ≡ 0 → ¬ IsFreeArea s b length
FirstFree s length out_of_bounds = ⊥
FirstFree s length out_of_fuel = ⊥

module _ (s : Space) (length : ℕ) (v : IsValid s) (whole : length % page_size ≡ 0)
    (some_left : 0 < length) where
  -- What each round keeps.
  record IsScanned (base free_size : ℕ) : Type 0 where
    aligned : base % page_size ≡ 0
    size_aligned : free_size % page_size ≡ 0
    start : (free_size ≡ 0) ⊎ (base % chunk ≡ 0)
    inside : base + free_size ≤ s.highest_address
    free : (p : ℕ) → In base free_size p → s.xlate p ≡ 0
    none_below : NoneBelow s length base

  -- A used page rules out every start from which the area would reach it.
  used_page :
      (base free_size : ℕ)
      → IsScanned base free_size
      → free_size < length
      → base + free_size < s.highest_address
      → xlate_entry s (base + free_size) ≢ 0
      → IsScanned (end_of s (xlate_entry s (base + free_size))) 0
        × (base + free_size + page_size ≤ end_of s (xlate_entry s (base + free_size)))
  unfolding IsFreeArea NoneBelow
  used_page base free_size i short below used =
      let (l, c) = v.owner ((base + free_size) / page_size) used in
      let block = v.linked (xlate_entry s (base + free_size)) l in
      (
        record {
          aligned = ground (arith, block.placed.aligned, block.placed.whole);
          size_aligned = refl;
          start = inl refl;
          inside = omega (arith, block.placed.within);
          free = λ p c. absurd (omega (arith, c));
          none_below = λ b lt at_chunk area. reached b lt at_chunk area block (omega (arith, c));
        },
        omega (arith, i.aligned, i.size_aligned, block.placed.aligned, block.placed.whole, c),
      )
    where
      reached :
          (b : ℕ)
          → b < end_of s (xlate_entry s (base + free_size))
          → b % chunk ≡ 0
          → IsFreeArea s b length
          → IsBlock s (xlate_entry s (base + free_size))
          → (s.block (xlate_entry s (base + free_size))).base_address ≤ base + free_size
          → ⊥
      reached b lt at_chunk (fits, free) block begins = elim (lt-or-le b base) [
        | inl before ↦ i.none_below b before at_chunk (fits, free)
        | inr after ↦ elim (lt-or-le (base + free_size) b) [
          | inr until ↦ used (
              free ((base + free_size) / page_size) (
                omega (arith, i.aligned, i.size_aligned),
                omega (arith, i.aligned, i.size_aligned),
              ))
          | inl past ↦
              let is_used = block.mapped (b / page_size) (omega (arith), omega (arith)) in
              let is_zero = free (b / page_size) (omega arith, omega arith) in
              used (sym is_used ∙ is_zero)
        ]
      ]

  -- An unused page: the free part grows, or the start moves to the next page.
  free_page :
      (base free_size : ℕ)
      → IsScanned base free_size
      → free_size < length
      → base + free_size < s.highest_address
      → xlate_entry s (base + free_size) ≡ 0
      → (base % chunk ≡ 0 → IsScanned base (free_size + page_size))
        × (base % chunk ≢ 0 → IsScanned (base + page_size) free_size)
  unfolding NoneBelow
  free_page base free_size i short below unused = (
    λ at_chunk. record {
      aligned = i.aligned;
      size_aligned = omega (arith, i.size_aligned);
      start = inr at_chunk;
      inside = omega (arith, i.inside, i.aligned, i.size_aligned, v.high);
      free = λ p c. elim (lt-or-le (p * page_size) (base + free_size)) [
        | inl old ↦ i.free p (omega (arith, c), old)
        | inr new ↦
            let same : p ≡ (base + free_size) / page_size =
              omega (arith, c, i.aligned, i.size_aligned) in
            rw same unused
      ];
      none_below = i.none_below;
    },
    λ off.
        let empty : free_size ≡ 0 = elim i.start [
          | inl z ↦ z
          | inr at_chunk ↦ absurd (off at_chunk)
        ] in
        record {
          aligned = omega (arith, i.aligned);
          size_aligned = i.size_aligned;
          start = inl empty;
          inside = omega (arith, i.inside, i.aligned, i.size_aligned, v.high);
          free = λ p c. absurd (omega (arith, c));
          none_below = λ b lt at_chunk area. elim (lt-or-le b base) [
            | inl before ↦ i.none_below b before at_chunk area
            | inr after ↦ off (omega (arith, i.aligned))
          ];
        },
  )

  -- A round that goes on keeps this, and moves up by a page at least.
  next_up-IsScanned :
      (base free_size : ℕ)
      → IsScanned base free_size
      → free_size < length
      → base + free_size < s.highest_address
      → IsScanned (next_up s base free_size).0 (next_up s base free_size).1
        × (base + free_size + page_size
            ≤ (next_up s base free_size).0 + (next_up s base free_size).1)
  unfolding next_up
  next_up-IsScanned base free_size i short below =
      elim (Bool-cases (xlate_entry s (base + free_size) == 0)) [
        | inr used ↦
            let (kept, up) = used_page base free_size i short below (==→≢ _ _ used) in
            rw used (kept, omega (arith, up))
        | inl unused ↦
            let (grows, moves) = free_page base free_size i short below (==→≡ _ _ unused) in
            elim (Bool-cases (base % chunk == 0)) [
              | inl at_chunk ↦ rw (unused, at_chunk) (grows (==→≡ _ _ at_chunk), omega arith)
              | inr off ↦ rw (unused, off) (moves (==→≢ _ _ off), omega arith)
            ]
      ]

  -- Enough rounds are left for the pages above.
  search_up-FirstFree :
      (fuel base free_size : ℕ)
      → IsScanned base free_size
      → s.highest_address + page_size < fuel * page_size + base + free_size
      → FirstFree s length (search_up fuel s length base free_size)
  unfolding search_up FirstFree IsFreeArea NoneBelow
  search_up-FirstFree zero base free_size i enough = absurd (omega (arith, i.inside))
  search_up-FirstFree (suc fuel) base free_size i enough = elim (lt-or-le free_size length) [
    | inr long ↦
        let big : leb length free_size ≡ true = ground arith in
        rw big (
          elim i.start [ inl z ↦ absurd (omega arith) | inr at_chunk ↦ at_chunk ],
          (omega (arith, i.inside), λ p c. i.free p (omega (arith, c), omega (arith, c))),
          i.none_below,
        )
    | inl short ↦
        let big : leb length free_size ≡ false = ground arith in
        elim (lt-or-le (base + free_size) s.highest_address) [
          | inr past ↦
              let over : leb s.highest_address (base + free_size) ≡ true = ground arith in
              rw (big, over)
                (λ b at_chunk area. elim (lt-or-le b base) [
                  | inl before ↦ i.none_below b before at_chunk area
                  | inr after ↦ omega (arith, area.0)
                ])
          | inl below ↦
              let over : leb s.highest_address (base + free_size) ≡ false = ground arith in
              rw (big, over)
                (let (kept, up) = next_up-IsScanned base free_size i short below in
                  search_up-FirstFree fuel _ _ kept (omega arith))
        ]
  ]

  first-IsScanned : IsScanned 0 0
  unfolding NoneBelow
  first-IsScanned = record {
    aligned = refl;
    size_aligned = refl;
    start = inl refl;
    inside = omega arith;
    free = λ p c. absurd (omega (arith, c));
    none_below = λ b lt at_chunk area. absurd (omega arith);
  }

-- In a valid space, the upward search for a length of whole pages gives the lowest free area of
-- that length on a 64K boundary, or that there is no memory only if no such area is free. It does
-- not read behind the table, and the bound on its rounds is enough.
pub find_free_area-FirstFree :
    (s : Space) (length : ℕ)
    → IsValid s
    → length % page_size ≡ 0
    → 0 < length
    → length ≤ 2 ^ 31
    → FirstFree s length (find_free_area s length false)
unfolding find_free_area
find_free_area-FirstFree s length v whole some_left small =
    let same : round_up length ≡ length = omega arith in
    rw same (
      search_up-FirstFree s length v whole some_left (s.highest_address / page_size + 2) 0 0
        (first-IsScanned s length v whole some_left) (omega (arith, v.high)))
