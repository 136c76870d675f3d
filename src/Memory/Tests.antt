-- ===== src/Memory/Tests.antt =====
-- Runs in an address space with one block of three committed pages at 0x10000.
use ring3k.Prelude.{
  ℕ, ◌%◌, ◌≡◌, refl, true, false, ◌&&◌, leb, ltb, if◌then◌else◌, inr, ◌⊎◌, [], ◌∷◌, some, arith,
}
use ring3k.Prelude.Checked.{returns}
use ring3k.Status.{status_success, status_no_memory}
use ring3k.Memory.Block.{
  MBlock, mem_reserve, mem_commit, mem_private, has_bit, commit_bit, mem_allocation_type_is_valid,
  mem_protection_is_valid,
}
use ring3k.Memory.Space.{Space, total_size, split_area}
use ring3k.Memory.Search.{find_free_area, chunk}
use ring3k.Memory.Virtual.{
  is_linked, allocate_at, allocate_virtual_memory, free_virtual_memory, get_kernel_address,
}
use ring3k.Memory.Pages.{IsDistinct}
use ring3k.Memory.Valid.{IsValid}
use ring3k.Memory.Split.{IsPart, split_area-IsPart}
use ring3k.Memory.Free.{In, free_virtual_memory_lem}
use ring3k.Memory.Allocate.{allocate_at_lem}
use ring3k.Memory.FreeArea.{IsFreeArea, NoneBelow, FirstFree, find_free_area-FirstFree}
use ring3k.Memory.Lookup.{IsMapped, Window, get_kernel_address-Window}
use ring3k.Memory.Requests.{allocate_virtual_memory_lem}

abbrev block : MBlock
block = record {
  base_address = 0x10000;
  protect = 4;
  region_size = 0x3000;
  state = mem_commit;
  kind = mem_private;
  kernel_address = 0x7000_0000;
  traced = false;
  section = 0;
  backing = 1;
  core_ofs = 0;
}

abbrev space : Space
space = record {
  highest_address = 0x100000;
  blocks = 1 ∷ [];
  block = λ id. block;
  xlate = λ p. if leb 16 p && ltb p 19 then 1 else 0;
  next = 2;
  host = λ id. some 0x7000_0000;
  file = λ id. true;
}

only_one : (id : ℕ) → is_linked space.blocks id ≡ true → id ≡ 1
unfolding is_linked
only_one id l = ground arith

is_listed : is_linked space.blocks 1 ≡ true
unfolding is_linked
is_listed = refl

space-IsValid : IsValid space
unfolding total_size IsDistinct is_linked
space-IsValid = record {
  high = omega arith;
  fresh = omega arith;
  linked = λ id l. record {
    named = omega (arith, only_one id l);
    old = omega (arith, only_one id l);
    placed = record {
      aligned = refl;
      whole = refl;
      some = omega arith;
      within = omega arith;
      held = inr refl;
    };
    mapped = λ p c. ground (arith, only_one id l);
  };
  owner = λ p used. ground arith;
  distinct = (refl, tt);
  room = omega arith;
}

split_area-IsPart_example :
    (m : ℕ) × (s' : Space) × (split_area space 1 0x11000 0x1000 ≡ returns (m, s'))
    × IsPart space 1 0x11000 0x1000 m s'
split_area-IsPart_example =
    split_area-IsPart space 1 0x11000 0x1000 space-IsValid is_listed refl refl (omega arith)
      (omega arith) (omega arith)

-- The middle page of the block.
free_virtual_memory_lem_example :
    (s' : Space) × (free_virtual_memory space 0x11000 0x1000 ≡ returns (status_success, s'))
    × IsValid s'
    × ((p : ℕ) → In 0x11000 0x1000 p → s'.xlate p ≡ 0)
    × ((p : ℕ)
        → ¬ In 0x11000 0x1000 p
        → (s'.xlate p ≡ 0 → space.xlate p ≡ 0) × (space.xlate p ≡ 0 → s'.xlate p ≡ 0))
free_virtual_memory_lem_example =
    free_virtual_memory_lem space 0x11000 0x1000 space-IsValid refl refl (omega arith) (omega arith)
      (omega arith) (omega arith) (omega arith)

allocate_at_lem_example :
    (s' : Space) × (allocate_at space 0x20000 0x2000 mem_commit 4 ≡ returns (status_success, s'))
    × IsValid s'
    × ((p : ℕ)
        → (In 0x20000 0x2000 p → s'.xlate p ≡ space.next)
          × (¬ In 0x20000 0x2000 p → s'.xlate p ≡ space.xlate p))
    × ((s'.block space.next).base_address ≡ 0x20000)
    × ((s'.block space.next).region_size ≡ 0x2000)
    × ((s'.block space.next).state
        ≡ (if has_bit mem_commit commit_bit then mem_commit else mem_reserve))
unfolding total_size
allocate_at_lem_example =
    allocate_at_lem space 0x20000 0x2000 mem_commit 4 0x7000_0000 space-IsValid refl refl
      (omega arith) (omega arith) (λ p c. ground arith) (omega arith) refl refl

find_free_area-FirstFree_example : FirstFree space 0x1000 (find_free_area space 0x1000 false)
find_free_area-FirstFree_example =
    find_free_area-FirstFree space 0x1000 space-IsValid refl (omega arith) (omega arith)

allocate_virtual_memory_lem_example :
    ((base : ℕ) × (s' : Space) × (allocate_virtual_memory space 0 0x1000 mem_commit 4
        ≡ returns (status_success, base, s'))
      × IsValid s'
      × (base % chunk ≡ 0)
      × IsFreeArea space base 0x1000
      × NoneBelow space 0x1000 base
      × ((p : ℕ)
          → (In base 0x1000 p → s'.xlate p ≡ space.next)
            × (¬ In base 0x1000 p → s'.xlate p ≡ space.xlate p)))
    ⊎ (allocate_virtual_memory space 0 0x1000 mem_commit 4 ≡ returns (status_no_memory, 0, space))
      × ((b : ℕ) → b % chunk ≡ 0 → ¬ IsFreeArea space b 0x1000)
unfolding total_size mem_allocation_type_is_valid mem_protection_is_valid
allocate_virtual_memory_lem_example =
    allocate_virtual_memory_lem space 0x1000 mem_commit 4 0x7000_0000 space-IsValid refl
      (omega arith) refl refl refl (omega arith) refl refl

-- The block is mapped at 0x70000000.
space-IsMapped : IsMapped space
unfolding IsMapped
space-IsMapped id l c = omega arith

get_kernel_address-Window_example : Window space 0x10800 8 (get_kernel_address space 0x10800 8)
get_kernel_address-Window_example =
    get_kernel_address-Window space space-IsValid 0x10800 8 space-IsMapped

-- An area of 0xF0000 bytes would start at 0x10000, where the block is.
