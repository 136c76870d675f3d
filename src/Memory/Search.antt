-- ===== src/Memory/Search.antt =====
-- kernel/mem.cpp: `find_free_area`, `check_area`, `get_mem_region` and `check_params`.
use ring3k.Prelude.{
  ℕ, zero, suc, ◌+◌, ◌-◌, ◌*◌, ◌/◌, ◌%◌, ◌^◌, Bool, true, false, not, ◌&&◌, ltb, leb, ◌==◌,
  if◌then◌else◌,
}
use ring3k.Prelude.Checked.{Checked, returns, assert, ◌>>◌}
use ring3k.Status.{
  status_success, status_no_memory, status_conflicting_addresses, status_memory_not_allocated,
  status_invalid_parameter_2, status_invalid_parameter_5, status_invalid_page_protection,
}
use ring3k.Memory.Block.{
  page_size, has_bit, reserve_bit, mem_allocation_type_is_valid, mem_protection_is_valid,
}
use ring3k.Memory.Space.{Space, xlate_entry, page_count, pages_are, verify}

abbrev pub word_mod : ℕ
word_mod = 2 ^ 32

abbrev pub chunk : ℕ
chunk = 0x10000

-- What a search comes to. `out_of_bounds` is a read behind the end of the translation table.
pub data Search : Type 0 where
  found : ℕ → Search
  no_memory : Search
  out_of_bounds : Search
  out_of_fuel : Search

-- The end of block `id`.
abbrev pub end_of : Space → ℕ → ℕ
end_of s id = (s.block id).base_address + (s.block id).region_size

-- One round of the upward loop: the new `base` and `free_size`.
unfoldable pub next_up : Space → ℕ → ℕ → ℕ × ℕ
next_up s base free_size =
    let id = xlate_entry s (base + free_size) in
    if not (id == 0)
    then (end_of s id, 0)
    else if base % chunk == 0
    then (base, free_size + page_size)
    else (base + page_size, free_size)

-- The upward loop, with a bound on its rounds.
unfoldable pub search_up : ℕ → Space → ℕ → ℕ → ℕ → Search
search_up zero s length base free_size = out_of_fuel
search_up (suc fuel) s length base free_size =
    let next = next_up s base free_size in
    let rest = search_up fuel s length next.0 next.1 in
    if leb length free_size
    then found base
    else if leb s.highest_address (base + free_size)
    then no_memory
    else rest

-- One round of the downward loop, with pointers that wrap.
unfoldable pub next_down : Space → ℕ → ℕ → ℕ → ℕ × ℕ
next_down s length base free_size =
    let id = xlate_entry s ((base + free_size) % word_mod) in
    if not (id == 0)
    then (((s.block id).base_address + word_mod - length) % word_mod, 0)
    else if base % chunk == 0
    then (base, free_size + page_size)
    else ((base + word_mod - page_size) % word_mod, free_size)

-- The downward loop, which stops with no result only at address 0.
unfoldable pub search_down : ℕ → Space → ℕ → ℕ → ℕ → Search
search_down zero s length base free_size = out_of_fuel
search_down (suc fuel) s length base free_size =
    let address = (base + free_size) % word_mod in
    let next = next_down s length base free_size in
    let rest = search_down fuel s length next.0 next.1 in
    if leb length free_size
    then found base
    else if address == 0
    then no_memory
    else if leb s.highest_address address
    then out_of_bounds
    else rest

-- The length rounded up to whole pages.
abbrev pub round_up : ℕ → ℕ
round_up length = (length + 0xfff) % word_mod / page_size * page_size

unfoldable pub find_free_area : Space → ℕ → Bool → Search
find_free_area s length top_down =
    let rounded = round_up length in
    let start = (s.highest_address + word_mod - rounded) % word_mod / chunk * chunk in
    if not top_down
    then search_up (s.highest_address / page_size + 2) s rounded 0 0
    else search_down (s.highest_address + 2) s rounded start 0

-- The bits that `check_area` returns.
pub record Area : Type 0 where
  pub is_valid : Bool
  pub is_free : Bool
  pub is_contiguous : Bool

pub check_area : Space → ℕ → ℕ → Area
check_area s address length =
    let id = xlate_entry s address in
    let same = pages_are s.xlate (address / page_size) (page_count length) id in
    let nothing : Area = record { is_valid = false; is_free = false; is_contiguous = false } in
    if leb s.highest_address address
    then nothing
    else if ltb s.highest_address ((address + length) % word_mod)
    then nothing
    else if length == 0
    then nothing
    else record { is_valid = true; is_free = (id == 0) && same; is_contiguous = same }

unfoldable pub get_mem_region : Space → ℕ → ℕ → ℕ → Checked ℕ
unfolding check_area
get_mem_region s start length state = do
  verify s
  let flags = check_area s start length
  returns (
      if not flags.is_valid
      then status_no_memory
      else if has_bit state reserve_bit && not flags.is_free
      then status_conflicting_addresses
      else if not flags.is_contiguous
      then status_conflicting_addresses
      else status_success)

unfoldable pub check_params : Space → ℕ → ℕ → ℕ → ℕ → Checked ℕ
unfolding mem_allocation_type_is_valid mem_protection_is_valid
check_params s start length state prot =
    if length == 0
    then returns status_memory_not_allocated
    else assert (length % page_size == 0)
      >> returns (
          if ltb s.highest_address length
          then status_invalid_parameter_2
          else if ltb s.highest_address start
          then status_invalid_parameter_2
          else if not (mem_allocation_type_is_valid state)
          then status_invalid_parameter_5
          else if not (mem_protection_is_valid prot)
          then status_invalid_page_protection
          else status_success)
