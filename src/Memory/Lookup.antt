-- ===== src/Memory/Lookup.antt =====
-- The operations that find a block by an address: `get_kernel_address`, `query` and `unmap_view`.
use ring3k.Prelude.{
  ℕ, ◌+◌, ◌-◌, ◌/◌, ◌%◌, ◌≤◌, ◌<◌, ◌≡◌, ◌≢◌, refl, true, false, leb, ltb, ◌==◌, Bool-cases, ==→≡,
  ==→≢, inl, inr, ◌⊎◌, arith,
}
use ring3k.Prelude.Checked.{Checked, returns}
use ring3k.Status.{
  status_success, status_no_memory, status_access_violation, status_invalid_parameter,
}
use ring3k.Memory.Block.{
  MBlock, MemoryInformation, page_size, mem_reserve, mem_commit, is_committed, query,
}
use ring3k.Memory.Space.{Space, xlate_entry, get_mblock}
use ring3k.Memory.Search.{word_mod, end_of}
use ring3k.Memory.Virtual.{is_linked, get_kernel_address, unmap_view, query_address}
use ring3k.Memory.Valid.{IsValid}
use ring3k.Memory.Release.{IsReleased, free_shared-IsReleased}

-- Every committed block is mapped into the kernel.
unfoldable pub IsMapped : Space → Type 0
IsMapped s =
    (id : ℕ)
    → is_linked s.blocks id ≡ true
    → (s.block id).state ≡ mem_commit
    → (s.block id).kernel_address ≢ 0

-- The area starts below the highest address and does not end behind it.
abbrev pub IsBelow : Space → ℕ → ℕ → Type 0
IsBelow s address len = (address < s.highest_address) × (address + len ≤ s.highest_address)

-- The outcomes of `get_kernel_address`, of which each excludes the others: the area is not all
-- below the highest address; or it is, and does not start in a committed block; or it is, and the
-- part of it inside that block is accessible.
pub data Window (s : Space) (address len : ℕ) (r : Checked (ℕ × ℕ × ℕ)) : Type 0 where
  outside :
      r ≡ returns (status_access_violation, address, len)
      → (s.highest_address ≤ address) ⊎ (s.highest_address < address + len)
      → Window s address len r
  not_committed :
      r ≡ returns (status_access_violation, address, len)
      → IsBelow s address len
      → (xlate_entry s address ≡ 0) ⊎ ((s.block (xlate_entry s address)).state ≢ mem_commit)
      → Window s address len r
  window :
      (n : ℕ) (b : MBlock)
      → IsBelow s address len
      → b ≡ s.block (xlate_entry s address)
      → r ≡ returns (status_success, b.kernel_address + (address - b.base_address), n)
      → b.state ≡ mem_commit
      → b.base_address ≤ address
      → address + n ≤ b.base_address + b.region_size
      → (n ≡ len) ⊎ (n < len) × (address + n ≡ b.base_address + b.region_size) × (0 < n)
      → Window s address len r

module _ (s : Space) (v : IsValid s) where
  -- The block of an address in use contains the address.
  owner_of :
      (address : ℕ)
      → xlate_entry s address ≢ 0
      → (is_linked s.blocks (xlate_entry s address) ≡ true)
        × ((s.block (xlate_entry s address)).base_address ≤ address)
        × (address < end_of s (xlate_entry s address))
        × (end_of s (xlate_entry s address) ≤ s.highest_address)
        × (((s.block (xlate_entry s address)).state ≡ mem_reserve)
            ⊎ ((s.block (xlate_entry s address)).state ≡ mem_commit))
  owner_of address used =
      let (l, c) = v.owner (address / page_size) used in
      let block = v.linked (xlate_entry s address) l in
      (
        l,
        omega (arith, c),
        omega (arith, c, block.placed.aligned, block.placed.whole),
        block.placed.within,
        block.placed.held,
      )

  get_mblock_entry : (start : ℕ) → get_mblock s start ≢ 0 → get_mblock s start ≡ xlate_entry s start
  unfolding get_mblock
  get_mblock_entry start used = ground arith

  -- In a valid space whose committed blocks are mapped, `get_kernel_address` does not fail an
  -- assertion. It refuses exactly an area that does not start below the highest address or ends
  -- behind it, and an area that does not start in a committed block. Otherwise it gives the
  -- kernel's address of the start, and the length cut off at the end of the block.
  pub get_kernel_address-Window :
      (address len : ℕ) → IsMapped s → Window s address len (get_kernel_address s address len)
  unfolding get_kernel_address IsMapped
  get_kernel_address-Window address len mapped = elim (Bool-cases (leb s.highest_address address)) [
    | inl high ↦ rw high (outside refl (inl (ground arith)))
    | inr low ↦ elim (Bool-cases (ltb s.highest_address len)) [
      | inl long ↦ rw (low, long) (outside refl (inr (ground arith)))
      | inr short ↦
          let sum : (address + len) % word_mod ≡ address + len = ground (arith, v.high) in
          elim (Bool-cases (ltb s.highest_address (address + len))) [
            | inl past ↦ rw (low, short, sum, past) (outside refl (inr (ground arith)))
            | inr within ↦
                let below_top : IsBelow s address len = (ground arith, ground arith) in
                elim (Bool-cases (xlate_entry s address == 0)) [
                  | inl unused ↦
                      rw (low, short, sum, within, unused)
                        (not_committed refl below_top (inl (==→≡ _ _ unused)))
                  | inr used ↦
                      let (l, above, below, fits, _) = owner_of address (==→≢ _ _ used) in
                      let b = s.block (xlate_entry s address) in
                      let above' : leb b.base_address address ≡ true = ground arith in
                      let below' : ltb address (b.base_address + b.region_size) ≡ true =
                        ground arith in
                      elim (Bool-cases (is_committed b)) [
                        | inr reserved ↦
                            rw (low, short, sum, within, used, above', below', reserved)
                              (not_committed refl below_top (inr (==→≢ _ _ reserved)))
                        | inl committed ↦
                            let some_address : (b.kernel_address == 0) ≡ false =
                              ground
                                (arith, mapped (xlate_entry s address) l (==→≡ _ _ committed)) in
                            rw
                              (
                                low, short, sum, within, used, above', below', committed,
                                some_address,
                              )
                              (let ofs = address - b.base_address in
                                let sum' : (ofs + len) % word_mod ≡ ofs + len =
                                  ground (arith, v.high) in
                                elim (Bool-cases (ltb b.region_size (ofs + len))) [
                                  | inl cut ↦
                                      let fits' : leb (b.region_size - ofs) b.region_size ≡ true =
                                        ground arith in
                                      rw (sum', cut, fits')
                                        (window (b.region_size - ofs) b below_top refl refl
                                          (==→≡ _ _ committed) above (ground arith)
                                          (inr (ground arith)))
                                  | inr whole ↦
                                      let fits' : leb len b.region_size ≡ true = ground arith in
                                      rw (sum', whole, fits')
                                        (window len b below_top refl refl (==→≡ _ _ committed) above
                                          (ground arith) (inl refl))
                                ])
                      ]
                ]
          ]
    ]
  ]

  -- `query` refuses an address that is not in use. Otherwise it describes the block that contains
  -- the address, which is reserved or committed.
  pub query_address_lem :
      (start : ℕ)
      → (get_mblock s start ≡ 0 → query_address s start ≡ inl status_invalid_parameter)
        × (get_mblock s start ≢ 0
            → (info : MemoryInformation) × (query_address s start ≡ inr info)
              × (info.allocation_base ≤ info.base_address)
              × (info.base_address ≤ start)
              × (start < info.base_address + page_size)
              × (info.base_address + page_size ≤ info.allocation_base + info.region_size)
              × ((info.state ≡ mem_reserve) ⊎ (info.state ≡ mem_commit)))
  unfolding query_address query
  query_address_lem start = (
    λ e. rw e,
    λ used.
        let same = get_mblock_entry start used in
        let used' : xlate_entry s start ≢ 0 = rw same at used in
        let (_, above, below, _, held) = owner_of start used' in
        let block = v.linked (xlate_entry s start) (v.owner (start / page_size) used').0 in
        let unused : (get_mblock s start == 0) ≡ false = ground arith in
        rw (unused, same)
          (
            query (s.block (xlate_entry s start)) start,
            refl,
            omega (arith, block.placed.aligned),
            omega arith,
            omega arith,
            omega (arith, block.placed.aligned, block.placed.whole),
            held,
          ),
  )

  -- `unmap_view` refuses an address that is not in use, and changes nothing then. Otherwise the
  -- block that contains the address leaves the space, whole, and the space stays valid.
  pub unmap_view_lem :
      (start : ℕ)
      → (get_mblock s start ≡ 0 → unmap_view s start ≡ returns (status_no_memory, s))
        × (get_mblock s start ≢ 0
            → (s' : Space) × (unmap_view s start ≡ returns (status_success, s'))
              × IsReleased s s' (get_mblock s start)
              × ((s.block (get_mblock s start)).base_address ≤ start)
              × (start < end_of s (get_mblock s start)))
  unfolding unmap_view
  unmap_view_lem start = (
    λ e. rw e,
    λ used.
        let same = get_mblock_entry start used in
        let used' : xlate_entry s start ≢ 0 = rw same at used in
        let (l, above, below, _, _) = owner_of start used' in
        let (s', e, released) = free_shared-IsReleased s v (xlate_entry s start) l in
        let unused : (get_mblock s start == 0) ≡ false = ground arith in
        rw (unused, same) (s', rw e, released, above, below),
  )
