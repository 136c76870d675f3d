-- ===== src/AllocBitmap.antt =====
-- kernel/alloc_bitmap.cpp and kernel/alloc_bitmap.h: the allocator for the shared GDI memory, one
-- bit for each granule of eight bytes. Addresses and sizes are 32-bit numbers. The memory that it
-- manages is seen only through the `size_t` that `alloc` writes in front of each block.
pub mod Bits
pub mod Scan
pub mod Alloc
pub mod Free
pub mod Info
pub mod Area
mod Tests
use package.ring3k.Prelude.{
  ℕ, zero, suc, ◌+◌, ◌-◌, ◌*◌, ◌/◌, ◌%◌, ◌^◌, bit_and, bit_or, Bool, true, false, not, ◌&&◌, ltb,
  leb, ◌==◌, if◌then◌else◌, Option, none, some, List, get_or, set, length, replicate,
}
use package.ring3k.Prelude.Checked.{Checked, returns, aborts, assert, ◌>>=◌, ◌>>◌}

abbrev pub word_mod : ℕ
word_mod = 2 ^ 32

abbrev allocation_granularity : ℕ
allocation_granularity = 8

-- `sizeof (size_t)` of the 32-bit build.
abbrev pub sizeof_size : ℕ
sizeof_size = 4

-- `a + b` and `a - b` on `size_t`.
abbrev pub add_size : ℕ → ℕ → ℕ
add_size a b = (a + b) % word_mod

abbrev pub sub_size : ℕ → ℕ → ℕ
sub_size a b = (a + word_mod - b) % word_mod

-- The three operations on one bit of a byte.
byte_bit : ℕ → ℕ → Bool
byte_bit b k = not (bit_and b (2 ^ k) == 0)

byte_set : ℕ → ℕ → ℕ
byte_set b k = bit_or b (2 ^ k)

byte_clear : ℕ → ℕ → ℕ
byte_clear b k = bit_and b (255 - 2 ^ k)

pub bit_value : List ℕ → ℕ → Bool
bit_value bitmap n = byte_bit (get_or bitmap (n / 8) 0) (n % 8)

pub set_bit : List ℕ → ℕ → List ℕ
set_bit bitmap n = set bitmap (n / 8) (byte_set (get_or bitmap (n / 8) 0) (n % 8))

pub clear_bit : List ℕ → ℕ → List ℕ
clear_bit bitmap n = set bitmap (n / 8) (byte_clear (get_or bitmap (n / 8) 0) (n % 8))

-- `words` is the memory, by the address of a `size_t`.
pub record AllocationBitmap : Type 0 where
  pub size : ℕ
  pub array_size : ℕ
  pub max_bits : ℕ
  pub bitmap : List ℕ
  pub ptr : ℕ
  pub words : ℕ → ℕ

pub set_area : AllocationBitmap → ℕ → ℕ → AllocationBitmap
set_area b ptr size =
    let array_size = size / (8 * allocation_granularity) in
    record {
      size = size;
      array_size = array_size;
      max_bits = array_size * 8;
      bitmap = replicate array_size 0;
      ptr = ptr;
      words = b.words;
    }

-- `while (i < max && p(start + i)) i++`, with `left` rounds to go.
pub count_while : (ℕ → Bool) → ℕ → ℕ → ℕ
count_while p n zero = 0
count_while p n (suc left) = let rest = count_while p (n + 1) left in if p n then suc rest else 0

-- The clipping of `max` at the head of both counting functions.
abbrev pub clip : AllocationBitmap → ℕ → ℕ → ℕ
clip b start max = if ltb (sub_size b.max_bits start) max then sub_size b.max_bits start else max

pub count_zero_bits : AllocationBitmap → ℕ → ℕ → ℕ
count_zero_bits b start max = count_while (λ n. not (bit_value b.bitmap n)) start (clip b start max)

pub count_one_bits : AllocationBitmap → ℕ → ℕ → ℕ
count_one_bits b start max = count_while (bit_value b.bitmap) start (clip b start max)

-- The loops of `set_bits` and `clear_bits`.
pub set_range : List ℕ → ℕ → ℕ → List ℕ
set_range bitmap n zero = bitmap
set_range bitmap n (suc count) = set_range (set_bit bitmap n) (n + 1) count

pub clear_range : List ℕ → ℕ → ℕ → List ℕ
clear_range bitmap n zero = bitmap
clear_range bitmap n (suc count) = clear_range (clear_bit bitmap n) (n + 1) count

pub set_bits : AllocationBitmap → ℕ → ℕ → Checked AllocationBitmap
set_bits b start count = do
  assert (ltb (add_size start count) b.max_bits)
  returns (record b { bitmap = set_range b.bitmap start count })

pub clear_bits : AllocationBitmap → ℕ → ℕ → Checked AllocationBitmap
clear_bits b start count = do
  assert (ltb (add_size start count) b.max_bits)
  returns (record b { bitmap = clear_range b.bitmap start count })

pub bits_required : ℕ → ℕ
bits_required len = add_size len (allocation_granularity - 1) / allocation_granularity

-- The address of granule `i`, and a store of a `size_t`.
abbrev pub granule : AllocationBitmap → ℕ → ℕ
granule b i = add_size b.ptr (i * allocation_granularity)

abbrev pub store : (ℕ → ℕ) → ℕ → ℕ → ℕ → ℕ
store words p v q = if p == q then v else words q

-- What `alloc` does once `free == required` at granule `i`.
pub take_run : AllocationBitmap → ℕ → ℕ → ℕ → Checked (Option ℕ × AllocationBitmap)
take_run b len required i = do
  b' ← set_bits b i required
  assert (required == count_one_bits b' i required)
  returns (
    some (add_size (granule b i) sizeof_size),
    record b' { words = store b.words (granule b i) len },
  )

-- The search of `alloc`: each round moves `i` up, so `max_bits` rounds are enough.
pub alloc_loop : ℕ → AllocationBitmap → ℕ → ℕ → ℕ → Checked (Option ℕ × AllocationBitmap)
alloc_loop zero b len required i = returns (none, b)
alloc_loop (suc fuel) b len required i =
    let free = count_zero_bits b i required in
    let used = count_one_bits b (i + free) (sub_size b.max_bits (i + free)) in
    let next = alloc_loop fuel b len required (i + free + used) in
    if ltb i b.max_bits
    then assert (leb free required)
      >> (if free == required
          then take_run b len required i
          else if i + free == b.max_bits
          then returns (none, b)
          else assert (ltb 0 used) >> next)
    else returns (none, b)

pub alloc : AllocationBitmap → ℕ → Checked (Option ℕ × AllocationBitmap)
alloc b len = do
  assert (not (b.ptr == 0))
  alloc_loop (b.max_bits + 1) b len (bits_required (add_size len sizeof_size)) 0

-- The offset of a block's header from the start of the area.
abbrev pub header_offset : AllocationBitmap → ℕ → ℕ
header_offset b start = sub_size (sub_size start sizeof_size) b.ptr

-- `free( start, len )`.
pub free_sized : AllocationBitmap → ℕ → ℕ → Checked AllocationBitmap
free_sized b start len = do
  assert (not (b.ptr == 0))
  assert (header_offset b start % allocation_granularity == 0)
  let ofs = header_offset b start / allocation_granularity
  assert (ltb ofs b.max_bits)
  assert (len == b.words (sub_size start sizeof_size))
  let required = bits_required (add_size len sizeof_size)
  assert (required == count_one_bits b ofs required)
  clear_bits b ofs required

-- `free( start )`.
pub free : AllocationBitmap → ℕ → Checked AllocationBitmap
free b start = do
  assert (header_offset b start % allocation_granularity == 0)
  assert (ltb (header_offset b start / allocation_granularity) b.max_bits)
  free_sized b start (b.words (sub_size start sizeof_size))

-- What `get_info` reports, in bytes.
pub record Usage : Type 0 where
  pub total : ℕ
  pub used : ℕ
  pub free : ℕ

-- The loop of `get_info`: it counts runs of zeros and of ones by turns. Only the first run can be
-- empty, so `2 * max_bits + 2` rounds are enough.
pub info_loop : ℕ → AllocationBitmap → Bool → ℕ → ℕ → ℕ → ℕ × ℕ
info_loop zero b ones i used free = (used, free)
info_loop (suc fuel) b ones i used free =
    let n = if ones then count_one_bits b i b.max_bits else count_zero_bits b i b.max_bits in
    let next =
      info_loop fuel b (not ones) (i + n) (if ones then used + n else used)
        (if ones then free else free + n) in
    if ltb i b.max_bits then next else (used, free)

pub get_info : AllocationBitmap → Checked Usage
get_info b = do
  let counted = info_loop (2 * b.max_bits + 2) b false 0 0 0
  assert (counted.1 + counted.0 == b.max_bits)
  returns (record {
    total = b.max_bits * allocation_granularity;
    used = counted.0 * allocation_granularity;
    free = counted.1 * allocation_granularity;
  })
