-- ===== src/Memory/Block.antt =====
-- kernel/block.cpp: one block of pages (`mblock`), with the classes `corepages` (which has backing
-- store) and `guardpages` (which has none). The references to the backing store are not counted,
-- and the mapping of a block into the kernel is a result of the host's `mmap`.
use ring3k.Prelude.{
  ℕ, ◌+◌, ◌-◌, ◌*◌, ◌/◌, ◌%◌, ◌^◌, Bool, false, not, ◌||◌, ltb, leb, ◌==◌, if◌then◌else◌, Option,
  none, some,
}
use ring3k.Prelude.Checked.{Checked, returns, aborts, assert, ◌>>◌}

abbrev pub page_size : ℕ
page_size = 0x1000

abbrev pub mem_commit : ℕ
mem_commit = 0x1000

abbrev pub mem_reserve : ℕ
mem_reserve = 0x2000

abbrev pub mem_free : ℕ
mem_free = 0x10000

abbrev pub mem_private : ℕ
mem_private = 0x20000

-- `flags & (1 << k)`.
abbrev pub has_bit : ℕ → ℕ → Bool
has_bit flags k = flags / 2 ^ k % 2 == 1

-- The bits of MEM_COMMIT, MEM_RESERVE and MEM_TOP_DOWN.
abbrev pub commit_bit : ℕ
commit_bit = 12

abbrev pub reserve_bit : ℕ
reserve_bit = 13

abbrev pub top_down_bit : ℕ
top_down_bit = 20

-- `state &= ~MEM_TOP_DOWN` and the test.
unfoldable pub mem_allocation_type_is_valid : ℕ → Bool
mem_allocation_type_is_valid state =
    let kept = state - state / 2 ^ top_down_bit % 2 * 2 ^ top_down_bit in
    (kept == mem_reserve) || (kept == mem_commit)

-- PAGE_NOACCESS to PAGE_EXECUTE_WRITECOPY are the single bits 0 to 7.
unfoldable pub mem_protection_is_valid : ℕ → Bool
mem_protection_is_valid protect =
    (protect == 0x10)
    || (protect == 0x20)
    || (protect == 0x40)
    || (protect == 0x80)
    || (protect == 0x01)
    || (protect == 0x02)
    || (protect == 0x04)
    || (protect == 0x08)

-- PROT_READ is 1, PROT_WRITE 2 and PROT_EXEC 4; the last line is STATUS_INVALID_PAGE_PROTECTION.
mmap_flag_from_page_prot : ℕ → ℕ
mmap_flag_from_page_prot prot =
    if prot == 0x10
    then 4
    else if prot == 0x20
    then 5
    else if prot == 0x40
    then 7
    else if prot == 0x80
    then 7
    else if prot == 0x01
    then 0
    else if prot == 0x02
    then 1
    else if prot == 0x04
    then 3
    else if prot == 0x08
    then 3
    else 0xc000_0045

-- `backing` is 0 for guard pages. `kernel_address` is 0 where the block is not mapped.
pub record MBlock : Type 0 where
  pub base_address : ℕ
  pub protect : ℕ
  pub region_size : ℕ
  pub state : ℕ
  pub kind : ℕ
  pub kernel_address : ℕ
  pub traced : Bool
  pub section : ℕ
  pub backing : ℕ
  pub core_ofs : ℕ

-- The constructor. It leaves the protection and the kind unset, here 0.
unfoldable pub new_block : ℕ → ℕ → ℕ → MBlock
new_block address size backing = record {
  base_address = address;
  protect = 0;
  region_size = size;
  state = mem_free;
  kind = 0;
  kernel_address = 0;
  traced = false;
  section = 0;
  backing = backing;
  core_ofs = 0;
}

abbrev pub is_free : MBlock → Bool
is_free b = b.state == mem_free

abbrev pub is_committed : MBlock → Bool
is_committed b = b.state == mem_commit

-- The block behind the cut, as `do_split` and the rest of `split` make it.
unfoldable pub rest_of : MBlock → ℕ → MBlock
rest_of b target = record {
  base_address = b.base_address + target;
  protect = b.protect;
  region_size = b.region_size - target;
  state = b.state;
  kind = b.kind;
  kernel_address = if b.kernel_address == 0 then 0 else b.kernel_address + target;
  traced = false;
  section = 0;
  backing = b.backing;
  core_ofs = if b.backing == 0 then 0 else b.core_ofs + b.region_size - (b.region_size - target);
}

-- `mblock::split`: the shortened block and the rest, or NULL if there is nothing to cut off.
unfoldable pub split : MBlock → ℕ → Checked (Option (MBlock × MBlock))
unfolding rest_of
split b target = do
  assert (leb page_size target)
  assert (target % page_size == 0)
  if b.region_size == target
      then returns none
      else assert (ltb target b.region_size)
        >> assert ((b.region_size - target) % page_size == 0)
        >> returns (some (record b { region_size = target }, rest_of b target))

-- `reserve`.
unfoldable pub reserve : MBlock → Checked MBlock
reserve b = do
  assert (not (is_committed b))
  if b.state == mem_reserve
      then returns b
      else returns (record b { state = mem_reserve; protect = 0; kind = mem_private })

-- `local_map`: guard pages cannot be mapped; `mapped` is what the host's `mmap` returns.
unfoldable pub local_map : Option ℕ → MBlock → Option MBlock
local_map none b = none
local_map (some address) b =
    if b.backing == 0 then none else some (record b { kernel_address = address })

abbrev or_die : Option MBlock → Checked MBlock
or_die none = aborts
or_die (some b) = returns b

-- `commit`, without the mapping into the client.
unfoldable pub commit : Option ℕ → MBlock → Checked MBlock
unfolding local_map
commit mapped b =
    if is_committed b
    then returns b
    else or_die (local_map mapped (record b { state = mem_commit; kind = mem_private }))

unfoldable pub uncommit : MBlock → MBlock
uncommit b = if is_committed b then record b { state = mem_reserve; kernel_address = 0 } else b

unfoldable pub unreserve : MBlock → Checked MBlock
unreserve b = do
  assert (not (is_committed b))
  if b.state == mem_reserve
      then returns (record b { protect = 0; state = mem_free; kind = 0 })
      else returns b

-- MEMORY_BASIC_INFORMATION, as `mblock::query` fills it in.
pub record MemoryInformation : Type 0 where
  pub base_address : ℕ
  pub allocation_base : ℕ
  pub allocation_protect : ℕ
  pub region_size : ℕ
  pub state : ℕ
  pub protect : ℕ
  pub kind : ℕ

unfoldable pub query : MBlock → ℕ → MemoryInformation
query b start = record {
  base_address = start - start % page_size;
  allocation_base = b.base_address;
  allocation_protect = b.protect;
  region_size = b.region_size;
  state = b.state;
  protect = if b.state == mem_reserve then 0 else b.protect;
  kind = b.kind;
}
