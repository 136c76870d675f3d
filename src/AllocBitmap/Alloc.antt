-- ===== src/AllocBitmap/Alloc.antt =====
-- The search of `alloc` in kernel/alloc_bitmap.cpp, and what it finds.
use ring3k.Prelude.{
  ℕ, zero, suc, ◌+◌, ◌*◌, ◌/◌, ◌≤◌, ◌<◌, ◌≡◌, refl, ap, ◌∙◌, inl, inr, Bool, true, false, not, ◌||◌,
  leb, ◌==◌, Bool-cases, lt-or-le, lt→ltb, le→ltb, ==→≡, ==→≢, Option, none, some, arith,
}
use ring3k.Prelude.Checked.{Checked, returns, aborts}
use ring3k.AllocBitmap.{
  AllocationBitmap, word_mod, sizeof_size, add_size, sub_size, granule, store, bit_value, set_range,
  count_zero_bits, count_one_bits, set_bits, take_run, alloc_loop, alloc, bits_required,
}
use ring3k.AllocBitmap.Bits.{in_run, length-set_range, set_range-IsBytes, bit_value-set_range}
use ring3k.AllocBitmap.Scan.{IsValid, Counts, count_zero_bits-Counts, count_one_bits-Counts}

-- `n` clear bits at `i`.
pub record IsFree (b : AllocationBitmap) (i n : ℕ) : Type 0 where
  pub inside : i + n ≤ b.max_bits
  pub clear : (k : ℕ) → i ≤ k → k < i + n → bit_value b.bitmap k ≡ false

-- The lowest place for `n` bits.
pub record IsFirstFit (b : AllocationBitmap) (n i : ℕ) : Type 0 where
  pub free : IsFree b i n
  pub lowest : (j : ℕ) → j < i → ¬ IsFree b j n

-- The state after `n` bits at `i` were given to a block of `len` bytes.
pub record IsTaken (b b' : AllocationBitmap) (i n len : ℕ) : Type 0 where
  pub valid : IsValid b'
  pub bits : (k : ℕ) → bit_value b'.bitmap k ≡ (in_run i n k || bit_value b.bitmap k)
  pub words : b'.words ≡ store b.words (granule b i) len
  pub same : (b'.ptr ≡ b.ptr) × (b'.max_bits ≡ b.max_bits)

-- The three outcomes of a search for `n` bits.
pub data Allocates (b : AllocationBitmap) (len n : ℕ) (r : Checked (Option ℕ × AllocationBitmap))
    : Type 0 where
  full : r ≡ returns (none, b) → ((j : ℕ) → ¬ IsFree b j n) → Allocates b len n r
  placed :
      (i : ℕ) (b' : AllocationBitmap)
      → r ≡ returns (some (b.ptr + i * 8 + sizeof_size), b')
      → IsFirstFit b n i
      → i + n < b.max_bits
      → IsTaken b b' i n len
      → Allocates b len n r
  at_end : (i : ℕ) → r ≡ aborts → IsFirstFit b n i → i + n ≡ b.max_bits → Allocates b len n r

-- A long enough run is counted in full.
pub Counts-full :
    {b : AllocationBitmap} {v : Bool} {start max c : ℕ}
    → Counts b v start max c
    → start + max ≤ b.max_bits
    → ((k : ℕ) → start ≤ k → k < start + max → bit_value b.bitmap k ≡ v)
    → max ≡ c
Counts-full {b} {v} {start} {max} {c} counts fits all = elim (lt-or-le c max) [
  | inl lt ↦
      absurd (flip v (all (start + c) (omega arith) (omega arith)) (counts.stop lt (omega arith)))
  | inr le ↦ omega (arith, counts.at_most)
]
  where
    flip :
        (w : Bool) → bit_value b.bitmap (start + c) ≡ w → bit_value b.bitmap (start + c) ≡ not w → ⊥
    flip true p q = cc
    flip false p q = cc

module _ (b : AllocationBitmap) (valid : IsValid b) (len n : ℕ) where
  set_range-IsTaken :
      (i : ℕ)
      → i + n ≤ b.max_bits
      → IsTaken b
          (record b { bitmap = set_range b.bitmap i n; words = store b.words (granule b i) len })
          i
          n
          len
  set_range-IsTaken i h = record {
    valid = record {
      bytes = set_range-IsBytes b.bitmap i n valid.bytes;
      sized = ap (λ (l : ℕ). l * 8) (length-set_range b.bitmap i n) ∙ valid.sized;
      mapped = valid.mapped;
      fits = valid.fits;
    };
    bits = λ k. bit_value-set_range b.bitmap i n k valid.bytes (omega (arith, valid.sized));
    words = refl;
    same = (refl, refl);
  }

  take_run-Allocates : (i : ℕ) → IsFirstFit b n i → Allocates b len n (take_run b len n i)
  unfolding take_run set_bits
  take_run-Allocates i fit =
      let b' = record b { bitmap = set_range b.bitmap i n } in
      let taken = set_range-IsTaken i fit.free.inside in
      let valid' : IsValid b' = record {
        bytes = taken.valid.bytes;
        sized = taken.valid.sized;
        mapped = taken.valid.mapped;
        fits = taken.valid.fits;
      } in
      let counts = count_one_bits-Counts b' valid' i n (omega (arith, fit.free.inside)) in
      let counted : n ≡ count_one_bits b' i n =
        Counts-full counts fit.free.inside (λ k h l. ground (arith, taken.bits k)) in
      elim (lt-or-le (i + n) b.max_bits) [
        | inl lt ↦
            placed i (record b' { words = store b.words (granule b i) len })
              (ground (arith, counted, valid.fits, valid.mapped)) fit lt taken
        | inr le ↦
            at_end i (ground (arith, valid.fits, valid.mapped)) fit (omega (arith, fit.free.inside))
      ]

  module _ (positive : 0 < n) where
    -- No run starts among the clear bits that were too few, nor among the set bits after them.
    skip :
        {i free used : ℕ}
        → Counts b false i n free
        → free < n
        → i + free < b.max_bits
        → Counts b true (i + free) (sub_size b.max_bits (i + free)) used
        → ((j : ℕ) → j < i → ¬ IsFree b j n)
        → (0 < used) × ((j : ℕ) → j < i + free + used → ¬ IsFree b j n)
    skip {i} {free} {used} zeros short inside ones none_below = (some_used, below)
      where
        set_next : bit_value b.bitmap (i + free) ≡ true
        set_next = zeros.stop short inside

        some_used : 0 < used
        some_used = elim (lt-or-le 0 used) [
          | inl lt ↦ lt
          | inr le ↦
              let none_used : used ≡ 0 = omega arith in
              let here : i + free + used ≡ i + free = omega arith in
              let clear : bit_value b.bitmap (i + free) ≡ false =
                rw here at (ones.stop (omega (arith, valid.fits, valid.mapped)) (omega arith)) in
              absurd (cc set_next)
        ]

        below : (j : ℕ) → j < i + free + used → ¬ IsFree b j n
        below j h run = elim (lt-or-le j i) [
          | inl lt ↦ none_below j lt run
          | inr le ↦ elim (lt-or-le j (i + free)) [
            | inl lt' ↦
                let clear : bit_value b.bitmap (i + free) ≡ false =
                  run.clear (i + free) (omega arith) (omega arith) in
                cc set_next
            | inr le' ↦
                let clear : bit_value b.bitmap j ≡ false =
                  run.clear j (omega arith) (omega arith) in
                let busy : bit_value b.bitmap j ≡ true = ones.bits j le' h in cc
          ]
        ]

    -- At the end of the bitmap there is no place left.
    nowhere :
        (i : ℕ) → b.max_bits ≤ i → ((j : ℕ) → j < i → ¬ IsFree b j n) → (j : ℕ) → ¬ IsFree b j n
    nowhere i h none_below j run = none_below j (omega (arith, run.inside)) run

    stuck :
        {i free : ℕ}
        → Counts b false i n free
        → free < n
        → i + free ≡ b.max_bits
        → ((j : ℕ) → j < i → ¬ IsFree b j n)
        → (j : ℕ) → ¬ IsFree b j n
    stuck {i} {free} zeros short end none_below j run = none_below j (omega (arith, run.inside)) run

    alloc_loop-Allocates :
        (fuel i : ℕ)
        → i ≤ b.max_bits
        → b.max_bits < i + fuel
        → ((j : ℕ) → j < i → ¬ IsFree b j n)
        → Allocates b len n (alloc_loop fuel b len n i)
    unfolding alloc_loop
    alloc_loop-Allocates zero i inside enough none_below = absurd (omega arith)
    alloc_loop-Allocates (suc fuel) i inside enough none_below =
        let free = count_zero_bits b i n in
        let zeros = count_zero_bits-Counts b valid i n inside in
        let used = count_one_bits b (i + free) (sub_size b.max_bits (i + free)) in
        let ones =
          count_one_bits-Counts b valid (i + free) (sub_size b.max_bits (i + free)) zeros.inside in
        let not_more : leb free n ≡ true = ground (arith, zeros.at_most) in
        elim (lt-or-le b.max_bits i) [
          | inl past ↦ absurd (omega arith)
          | inr _ ↦ elim (lt-or-le i b.max_bits) [
            | inr le ↦ rw (le→ltb _ _ le) (full refl (nowhere i le none_below))
            | inl lt ↦ elim (Bool-cases (free == n)) [
              | inl e ↦
                  rw (lt→ltb _ _ lt, not_more, e)
                    (take_run-Allocates i (record {
                      free = record {
                        inside = omega (arith, zeros.inside, ==→≡ _ _ e);
                        clear = λ k h l. zeros.bits k h (omega (arith, ==→≡ _ _ e));
                      };
                      lowest = none_below;
                    }))
              | inr ne ↦
                  let short : free < n = ground (arith, zeros.at_most, ==→≢ _ _ ne) in
                  elim (Bool-cases (i + free == b.max_bits)) [
                    | inl end ↦
                        rw (lt→ltb _ _ lt, not_more, ne, end)
                          (full refl (stuck zeros short (==→≡ _ _ end) none_below))
                    | inr more ↦
                        let room : i + free < b.max_bits = ground (arith, zeros.inside) in
                        let (some_used, below) = skip zeros short room ones none_below in
                        rw (lt→ltb _ _ lt, not_more, ne, more, lt→ltb _ _ some_used)
                          (alloc_loop-Allocates fuel (i + free + used) ones.inside (omega arith)
                            below)
                  ]
            ]
          ]
        ]

-- For a length whose rounding does not overflow, on a valid bitmap, the search ends in one of three
-- ways. No place is free, and the result is NULL with nothing changed. Or the block lies at the
-- lowest free place, whose bits are then set and all others kept, with its length in front. Or
-- that place ends at the last bit, and an assertion of `set_bits` fails.
pub alloc-Allocates :
    (b : AllocationBitmap) (len : ℕ)
    → IsValid b
    → len + 11 < word_mod
    → Allocates b len ((len + 11) / 8) (alloc b len)
unfolding alloc bits_required
alloc-Allocates b len valid h =
    let rounded : add_size (add_size len sizeof_size) 7 / 8 ≡ (len + 11) / 8 = omega arith in
    let mapped : not (b.ptr == 0) ≡ true = ground (arith, valid.mapped) in
    rw (mapped, rounded)
      (alloc_loop-Allocates b valid len ((len + 11) / 8) (omega arith) (b.max_bits + 1) 0
        (omega arith) (omega arith) (λ j l. absurd (omega arith)))
