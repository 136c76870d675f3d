-- ===== src/AllocBitmap/Area.antt =====
-- A fresh area, and requests whose rounding overflows a `size_t`.
use Prim.Native.Nat.{bit_and-bitwise}
use native.Mathlib.Numerals.{add-one}
use ring3k.Prelude.{
  ℕ, ◌+◌, ◌*◌, ◌/◌, ◌%◌, ◌^◌, ◌≤◌, ◌<◌, ◌≡◌, bit_and, true, false, not, ◌==◌, lt→ltb, some,
  length-replicate, get_or-replicate, arith,
}
use ring3k.Prelude.Checked.{returns}
use ring3k.AllocBitmap.{
  AllocationBitmap, word_mod, sizeof_size, add_size, byte_bit, bit_value, set_area, clip,
  count_while, count_zero_bits, count_one_bits, set_bits, set_range, take_run, alloc_loop, alloc,
  bits_required, store,
}
use ring3k.AllocBitmap.Scan.{IsValid}

zero_byte : (k : ℕ) → byte_bit 0 k ≡ false
unfolding byte_bit
zero_byte k = let z : bit_and 0 (2 ^ k) ≡ 0 = bit_and-bitwise 0 (2 ^ k) in rw z

-- An area that is not at 0 and ends inside the address space is a valid bitmap with all bits clear.
pub set_area-IsValid :
    (b : AllocationBitmap) (ptr size : ℕ)
    → 0 < ptr
    → ptr + size ≤ word_mod
    → IsValid (set_area b ptr size)
      × ((k : ℕ) → bit_value (set_area b ptr size).bitmap k ≡ false)
      × ((set_area b ptr size).max_bits * 8 ≤ size)
unfolding set_area bit_value
set_area-IsValid b ptr size mapped fits = (
  record {
    bytes = record { byte = λ i. rw (get_or-replicate {A = ℕ} (size / 64) i 0) (omega arith) };
    sized = rw (length-replicate {A = ℕ} (size / 64) 0);
    mapped = mapped;
    fits = omega arith;
  },
  λ k. rw (get_or-replicate {A = ℕ} (size / 64) (k / 8) 0) (zero_byte (k % 8)),
  omega arith,
)

no_zeros : (b : AllocationBitmap) (i : ℕ) → count_zero_bits b i 0 ≡ 0
unfolding count_zero_bits count_while
no_zeros b i = let clipped : clip b i 0 ≡ 0 = ground arith in rw clipped

no_ones : (b : AllocationBitmap) (i : ℕ) → count_one_bits b i 0 ≡ 0
unfolding count_one_bits count_while
no_ones b i = let clipped : clip b i 0 ≡ 0 = ground arith in rw clipped

-- A request of 2^32 - 11 to 2^32 - 4 bytes rounds to no granule at all: `alloc` succeeds, returns
-- the first address of the area, sets no bit, and writes the length over the first word.
pub alloc_wraps :
    (b : AllocationBitmap) (len : ℕ)
    → IsValid b
    → 0 < b.max_bits
    → word_mod ≤ len + 11
    → len + 4 ≤ word_mod
    → alloc b len
      ≡ returns (some (add_size b.ptr sizeof_size), record b { words = store b.words b.ptr len })
unfolding alloc alloc_loop take_run set_bits set_range bits_required
alloc_wraps b len valid some_bits low high =
    let none_required : add_size (add_size len sizeof_size) 7 / 8 ≡ 0 = omega arith in
    let mapped : not (b.ptr == 0) ≡ true = ground (arith, valid.mapped) in
    let first : add_size b.ptr (0 * 8) ≡ b.ptr =
      omega (arith, valid.fits, valid.mapped, some_bits) in
    rw (mapped, none_required, add-one, lt→ltb _ _ some_bits, no_zeros, no_ones, first)
