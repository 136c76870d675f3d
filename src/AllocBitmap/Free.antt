-- ===== src/AllocBitmap/Free.antt =====
-- `free` and `free_sized` of kernel/alloc_bitmap.cpp, on a block that `alloc` returned.
use ring3k.Prelude.{
  ℕ, ◌+◌, ◌*◌, ◌/◌, ◌%◌, ◌≤◌, ◌<◌, ◌≡◌, refl, ap, ◌∙◌, sym, true, not, ◌&&◌, ltb, ◌==◌, lt→ltb,
  ≡→==, subst, Option, none, some, arith,
}
use ring3k.Prelude.Checked.{Checked, returns, aborts}
use ring3k.AllocBitmap.{
  AllocationBitmap, word_mod, sizeof_size, add_size, sub_size, granule, header_offset, bit_value,
  clear_range, clear_bits, count_one_bits, bits_required, alloc, free_sized, free,
}
use ring3k.AllocBitmap.Bits.{in_run, length-clear_range, clear_range-IsBytes, bit_value-clear_range}
use ring3k.AllocBitmap.Scan.{IsValid, count_one_bits-Counts}
use ring3k.AllocBitmap.Alloc.{
  IsTaken, IsFirstFit, Allocates, full, placed, at_end, Counts-full, alloc-Allocates,
}

-- A block of `len` bytes at granule `i`, as `alloc` leaves it.
pub record IsBlock (b : AllocationBitmap) (i len : ℕ) : Type 0 where
  pub inside : i + (len + 11) / 8 < b.max_bits
  pub busy : (k : ℕ) → i ≤ k → k < i + (len + 11) / 8 → bit_value b.bitmap k ≡ true
  pub header : b.words (granule b i) ≡ len
  pub small : len + 11 < word_mod

-- The state after the bits of the block were cleared.
pub record IsFreed (b b' : AllocationBitmap) (i len : ℕ) : Type 0 where
  pub valid : IsValid b'
  pub bits :
      (k : ℕ) → bit_value b'.bitmap k ≡ (not (in_run i ((len + 11) / 8) k) && bit_value b.bitmap k)
  pub same : (b'.words ≡ b.words) × (b'.ptr ≡ b.ptr) × (b'.max_bits ≡ b.max_bits)

module _ (b : AllocationBitmap) (valid : IsValid b) (i len : ℕ) where
  abbrev start : ℕ
  start = b.ptr + i * 8 + sizeof_size

  module _ (inside : i < b.max_bits) where
    offset_of_start : header_offset b start ≡ i * 8
    offset_of_start = omega (arith, valid.fits, valid.mapped)

    word_of_start : sub_size start sizeof_size ≡ granule b i
    word_of_start = omega (arith, valid.fits, valid.mapped)

  cleared : AllocationBitmap
  cleared = record b { bitmap = clear_range b.bitmap i ((len + 11) / 8) }

  module _ (block : IsBlock b i len) where
    rounded : add_size (add_size len sizeof_size) 7 / 8 ≡ (len + 11) / 8
    rounded = omega (arith, block.small)

    counted : (len + 11) / 8 ≡ count_one_bits b i ((len + 11) / 8)
    counted =
        Counts-full (count_one_bits-Counts b valid i ((len + 11) / 8) (omega (arith, block.inside)))
          (omega (arith, block.inside)) block.busy

    cleared-IsFreed : IsFreed b cleared i len
    unfolding cleared
    cleared-IsFreed = record {
      valid = record {
        bytes = clear_range-IsBytes b.bitmap i _ valid.bytes;
        sized = ap (λ (l : ℕ). l * 8) (length-clear_range b.bitmap i _) ∙ valid.sized;
        mapped = valid.mapped;
        fits = valid.fits;
      };
      bits = λ k.
          bit_value-clear_range b.bitmap i _ k valid.bytes
            (omega (arith, valid.sized, block.inside));
      same = (refl, refl, refl);
    }

    free_sized_block : free_sized b start len ≡ returns cleared
    unfolding free_sized clear_bits bits_required cleared
    free_sized_block =
        let mapped : not (b.ptr == 0) ≡ true = ground (arith, valid.mapped) in
        let aligned : i * 8 % 8 ≡ 0 = omega arith in
        let index : i * 8 / 8 ≡ i = omega arith in
        let inside : i < b.max_bits = omega (arith, block.inside) in
        let found : (len == b.words (granule b i)) ≡ true = ground (arith, block.header) in
        let all_set : ((len + 11) / 8 == count_one_bits b i ((len + 11) / 8)) ≡ true =
          ≡→== _ _ counted in
        let room : ltb (add_size i ((len + 11) / 8)) b.max_bits ≡ true =
          ground (arith, block.inside, valid.fits, valid.mapped) in
        rw (
          mapped,
          offset_of_start inside,
          aligned,
          index,
          lt→ltb _ _ inside,
          word_of_start inside,
          found,
          rounded,
          all_set,
          room,
        )

    free_block : free b start ≡ returns cleared
    unfolding free
    free_block =
        let aligned : i * 8 % 8 ≡ 0 = omega arith in
        let index : i * 8 / 8 ≡ i = omega arith in
        let inside : i < b.max_bits = omega (arith, block.inside) in
        rw
          (
            offset_of_start inside,
            aligned,
            index,
            lt→ltb _ _ inside,
            word_of_start inside,
            block.header,
          )
          free_sized_block

-- The block that a successful `alloc` returns.
alloc-IsBlock :
    (b b' : AllocationBitmap) (len i : ℕ)
    → IsFirstFit b ((len + 11) / 8) i
    → i + (len + 11) / 8 < b.max_bits
    → IsTaken b b' i ((len + 11) / 8) len
    → len + 11 < word_mod
    → IsBlock b' i len
alloc-IsBlock b b' len i fit room taken small = record {
  inside = rw taken.same.1 room;
  busy = λ k h l. ground (arith, taken.bits k);
  header = rw (taken.words, taken.same.0) (ground arith);
  small = small;
}

-- What `free` leaves after a successful `alloc`: a valid state in which each bit is what it was
-- before the `alloc`.
pub record IsRestored (b : AllocationBitmap) (r : Checked AllocationBitmap) : Type 0 where
  pub out : AllocationBitmap
  pub runs : r ≡ returns out
  pub valid : IsValid out
  pub bits : (k : ℕ) → bit_value out.bitmap k ≡ bit_value b.bitmap k
  pub same : (out.ptr ≡ b.ptr) × (out.max_bits ≡ b.max_bits)

-- The possible results of `alloc` exclude one another.
Result-some : Checked (Option ℕ × AllocationBitmap) → Option (ℕ × AllocationBitmap)
Result-some (returns (some p, b)) = some (p, b)
Result-some (returns (none, b)) = none
Result-some aborts = none

module _ (b b' : AllocationBitmap) (len p : ℕ) (valid : IsValid b) (small : len + 11 < word_mod)
    (given : alloc b len ≡ returns (some p, b')) where
  -- The block behind the pointer.
  pub alloc_block :
      (i : ℕ) × (p ≡ b'.ptr + i * 8 + sizeof_size)
      × IsFirstFit b ((len + 11) / 8) i
      × IsTaken b b' i ((len + 11) / 8) len
      × IsBlock b' i len
  unfolding Result-some
  alloc_block = go (alloc-Allocates b len valid small)
    where
      go :
          Allocates b len ((len + 11) / 8) (alloc b len)
          → (i : ℕ) × (p ≡ b'.ptr + i * 8 + sizeof_size)
            × IsFirstFit b ((len + 11) / 8) i
            × IsTaken b b' i ((len + 11) / 8) len
            × IsBlock b' i len
      go (full e _) = cc (sym given ∙ e)
      go (at_end i e _ _) = cc (sym given ∙ e)
      go (placed i c e fit room taken) =
          let both = ap Result-some (sym given ∙ e) in
          let same : c ≡ b' = ground (arith, both) in
          let taken' = subst (λ x. IsTaken b x i ((len + 11) / 8) len) same taken in
          (
            i,
            ground (arith, both, taken'.same),
            fit,
            taken',
            alloc-IsBlock b b' len i fit room taken' small,
          )

  -- On a valid bitmap, for a length that does not overflow, freeing a block that `alloc` returned
  -- does not fail, and every bit is again what it was before the `alloc`.
  pub free-alloc : IsRestored b (free b' p)
  free-alloc =
      let (i, e, fit, taken, block) = alloc_block in
      let freed = cleared-IsFreed b' taken.valid i len block in
      rw e (record {
        out = cleared b' taken.valid i len;
        runs = free_block b' taken.valid i len block;
        valid = freed.valid;
        bits = λ k. freed.bits k ∙ ground (arith, taken.bits k, fit.free.clear k);
        same = (freed.same.1 ∙ taken.same.0, freed.same.2 ∙ taken.same.1);
      })
