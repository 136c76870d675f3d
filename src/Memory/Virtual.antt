-- ===== src/Memory/Virtual.antt =====
-- kernel/mem.cpp: the operations of the system calls on an address space. A new core block gets its
-- own number as the name of its backing store.
use ring3k.Prelude.{
  ℕ, ◌+◌, ◌-◌, ◌%◌, Bool, false, not, ◌||◌, ltb, leb, ◌==◌, if◌then◌else◌, List, [], ◌∷◌, ◌⊎◌, inl,
  inr,
}
use ring3k.Prelude.Checked.{Checked, returns, aborts, assert, ◌>>=◌, ◌>>◌}
use ring3k.Status.{
  is_error, status_success, status_no_memory, status_invalid_parameter, status_invalid_parameter_2,
  status_unable_to_free_vm, status_access_violation,
}
use ring3k.Memory.Block.{
  MemoryInformation, page_size, has_bit, commit_bit, top_down_bit, is_free, is_committed, new_block,
  reserve, commit, query,
}
use ring3k.Memory.Space.{
  Space, store, xlate_entry, update_page_translation, verify, insert_block, allocate_block,
  split_area, free_shared, get_mblock,
}
use ring3k.Memory.Search.{
  found, no_memory, out_of_bounds, out_of_fuel, find_free_area, get_mem_region, check_params,
  word_mod,
}

unfoldable pub is_linked : List ℕ → ℕ → Bool
is_linked [] id = false
is_linked (x ∷ xs) id = (x == id) || is_linked xs id

-- `if (mb->is_free()) { reserve; update_page_translation }`.
unfoldable pub reserve_if_free : Space → ℕ → Checked Space
unfolding update_page_translation reserve
reserve_if_free s id =
    if is_free (s.block id)
    then (reserve (s.block id) >>= λ b. returns (update_page_translation (store s id b) id))
    else returns s

-- `if (state & MEM_COMMIT) { set_prot; commit }`.
unfoldable pub commit_if : Space → ℕ → ℕ → ℕ → Checked Space
unfolding commit
commit_if s id state prot =
    if has_bit state commit_bit
    then (commit (s.host id) (record (s.block id) { protect = prot }) >>= λ b.
        returns (store s id b))
    else returns s

unfoldable pub set_block_state : Space → ℕ → ℕ → ℕ → Checked (ℕ × Space)
unfolding reserve_if_free commit_if
set_block_state s id state prot = do
  reserved ← reserve_if_free s id
  committed ← commit_if reserved id state prot
  assert (not (is_free (committed.block id)))
  verify committed
  returns (status_success, committed)

-- The address to use: the caller's, or the one that the search finds. A status is an error.
pub data Place : Type 0 where
  at : ℕ → Place
  failed : ℕ → Place

unfoldable pub choose_start : Space → ℕ → ℕ → ℕ → Checked Place
unfolding find_free_area
choose_start s start length state =
    if not (start == 0)
    then returns (at start)
    else elim (find_free_area s length (has_bit state top_down_bit)) [
      | found base ↦ returns (at base)
      | no_memory ↦ returns (failed status_no_memory)
      | out_of_bounds ↦ aborts
      | out_of_fuel ↦ aborts
    ]

-- The block to use at a free address: new pages, or the part of the block that is there. Without
-- a file for new pages `alloc_core_pages` gives a null pointer, which the code uses.
unfoldable pub block_at : Space → ℕ → ℕ → Checked (ℕ × Space)
unfolding insert_block split_area new_block
block_at s start length =
    if xlate_entry s start == 0
    then (if s.file s.next
        then returns
            (s.next, insert_block (allocate_block s (new_block start length s.next)) s.next)
        else aborts)
    else split_area s (xlate_entry s start) start length

-- `allocate_virtual_memory` once the address is chosen.
unfoldable pub allocate_at : Space → ℕ → ℕ → ℕ → ℕ → Checked (ℕ × Space)
unfolding block_at set_block_state is_linked get_mem_region
allocate_at s start length state prot = do
  r ← get_mem_region s start length state
  if is_error r then returns (r, s) else (do
    mb ← block_at s start length
    assert (is_linked mb.1.blocks mb.0)
    assert (start == (mb.1.block mb.0).base_address)
    assert (length == (mb.1.block mb.0).region_size)
    set_block_state mb.1 mb.0 state prot)

-- The status, the address and the new state. The address is meant on success only: on an error it
-- is the caller's here, while the search of the source leaves where it stopped.
unfoldable pub allocate_virtual_memory : Space → ℕ → ℕ → ℕ → ℕ → Checked (ℕ × ℕ × Space)
unfolding check_params choose_start allocate_at
allocate_virtual_memory s start length state prot = do
  r ← check_params s start length state prot
  if is_error r then returns (r, start, s) else (do
    place ← choose_start s start length state
    elim place [
      | failed status ↦ returns (status, start, s)
      | at address ↦
          allocate_at s address length state prot >>= λ done. returns (done.0, address, done.1)
    ])

unfoldable pub free_virtual_memory : Space → ℕ → ℕ → Checked (ℕ × Space)
unfolding split_area free_shared get_mblock
free_virtual_memory s start length = do
  assert (length % page_size == 0)
  assert (start % page_size == 0)
  if start == 0
      then returns (status_invalid_parameter, s)
      else if ltb s.highest_address length
      then returns (status_invalid_parameter_2, s)
      else if length == 0
      then returns (status_invalid_parameter_2, s)
      else if ltb s.highest_address start
      then returns (status_invalid_parameter_2, s)
      else (do
        verify s
        let id = get_mblock s start
        if id == 0
            then returns (status_no_memory, s)
            else if ltb (s.block id).region_size length
            then returns (status_unable_to_free_vm, s)
            else (do
              mb ← split_area s id start length
              s' ← free_shared mb.1 mb.0
              verify s'
              returns (status_success, s')))

unfoldable pub unmap_view : Space → ℕ → Checked (ℕ × Space)
unfolding free_shared get_mblock
unmap_view s start =
    let id = get_mblock s start in
    if id == 0
    then returns (status_no_memory, s)
    else free_shared s id >>= λ s'. returns (status_success, s')

unfoldable pub query_address : Space → ℕ → ℕ ⊎ MemoryInformation
unfolding get_mblock query
query_address s start =
    let id = get_mblock s start in
    if id == 0 then inl status_invalid_parameter else inr (query (s.block id) start)

-- `get_kernel_address`: the kernel's address of a user address, and how many bytes are there.
unfoldable pub get_kernel_address : Space → ℕ → ℕ → Checked (ℕ × ℕ × ℕ)
get_kernel_address s address len =
    let id = xlate_entry s address in
    let b = s.block id in
    let ofs = address - b.base_address in
    let len' = if ltb b.region_size ((ofs + len) % word_mod) then b.region_size - ofs else len in
    if leb s.highest_address address
    then returns (status_access_violation, address, len)
    else if ltb s.highest_address len
    then returns (status_access_violation, address, len)
    else if ltb s.highest_address ((address + len) % word_mod)
    then returns (status_access_violation, address, len)
    else if id == 0
    then returns (status_access_violation, address, len)
    else assert (leb b.base_address address)
      >> assert (ltb address (b.base_address + b.region_size))
      >> (if not (is_committed b)
          then returns (status_access_violation, address, len)
          else assert (not (b.kernel_address == 0))
            >> assert (leb len' b.region_size)
            >> returns (status_success, b.kernel_address + ofs, len'))
