-- ===== src/AllocBitmap/Tests.antt =====
-- Runs of the allocator, on an area of 128 bytes.
use ring3k.Prelude.{ℕ, ◌*◌, ◌≤◌, ◌≡◌, refl, false, [], ◌∷◌, some, arith}
use ring3k.Prelude.Checked.{returns}
use ring3k.AllocBitmap.{
  AllocationBitmap, bit_value, set_area, store, count_while, count_zero_bits, count_one_bits,
  set_range, set_bit, set_bits, bits_required, take_run, alloc_loop, alloc, free, byte_bit,
  byte_set,
}
use ring3k.AllocBitmap.Scan.{IsValid}
use ring3k.AllocBitmap.Alloc.{Allocates, alloc-Allocates}
use ring3k.AllocBitmap.Free.{IsRestored, free-alloc}
use ring3k.AllocBitmap.Area.{set_area-IsValid}

abbrev blank : AllocationBitmap
blank = record { size = 0; array_size = 0; max_bits = 0; bitmap = []; ptr = 0; words = λ p. 0 }

abbrev area : AllocationBitmap
area = set_area blank 0x1000 128

area_lem :
    IsValid (set_area blank 0x1000 128)
    × ((k : ℕ) → bit_value (set_area blank 0x1000 128).bitmap k ≡ false)
    × ((set_area blank 0x1000 128).max_bits * 8 ≤ 128)
area_lem = set_area-IsValid blank 0x1000 128 (omega arith) (omega arith)

area-IsValid : IsValid area
area-IsValid = area_lem.0

alloc-Allocates_example : Allocates area 20 3 (alloc area 20)
alloc-Allocates_example = alloc-Allocates area 20 area-IsValid (omega arith)

-- The area with the first three granules taken.
abbrev taken_area : AllocationBitmap
taken_area = record {
  size = 128;
  array_size = 2;
  max_bits = 16;
  bitmap = 7 ∷ 0 ∷ [];
  ptr = 0x1000;
  words = store (λ p. 0) 0x1000 20;
}

alloc-area : alloc area 20 ≡ returns (some 0x1004, taken_area)
unfolding alloc alloc_loop take_run set_bits set_range set_bit bits_required count_zero_bits
    count_one_bits count_while bit_value byte_bit byte_set set_area
alloc-area = refl

free-alloc_example : IsRestored area (free taken_area 0x1004)
free-alloc_example = free-alloc area taken_area 20 0x1004 area-IsValid (omega arith) alloc-area
