-- ===== src/AllocBitmap/Info.antt =====
-- `get_info` of kernel/alloc_bitmap.cpp, against the number of set bits.
use ring3k.Prelude.{
  ℕ, zero, suc, ◌+◌, ◌-◌, ◌*◌, ◌≤◌, ◌<◌, ◌≡◌, refl, sym, ◌∙◌, ◌⊎◌, inl, inr, Bool, true, false, not,
  if◌then◌else◌, lt-or-le, lt→ltb, le→ltb, ◌==◌, ≡→==, arith,
}
use ring3k.Prelude.Checked.{returns}
use ring3k.AllocBitmap.{
  AllocationBitmap, bit_value, count_zero_bits, count_one_bits, info_loop, get_info,
}
use ring3k.AllocBitmap.Scan.{IsValid, Counts, count_zero_bits-Counts, count_one_bits-Counts}

-- How many of the first `n` bits are set.
pub ones_below : (ℕ → Bool) → ℕ → ℕ
ones_below p zero = 0
ones_below p (suc n) = ones_below p n + (if p n then 1 else 0)

ones_below-le : (p : ℕ → Bool) (n : ℕ) → ones_below p n ≤ n
unfolding ones_below
ones_below-le p zero = omega arith
ones_below-le p (suc n) = ground (arith, ones_below-le p n)

ones_below-run :
    (p : ℕ → Bool) (v : Bool) (i n : ℕ)
    → ((k : ℕ) → i ≤ k → k < i + n → p k ≡ v)
    → ones_below p (i + n) ≡ ones_below p i + (if v then n else 0)
unfolding ones_below
ones_below-run p v i zero h = let e : i + 0 ≡ i = omega arith in rw e (ground arith)
ones_below-run p v i (suc n) h =
    let e : i + suc n ≡ suc (i + n) = omega arith in
    rw e (
      ground (
        arith,
        ones_below-run p v i n (λ k a l. h k a (omega arith)),
        h (i + n) (omega arith) (omega arith),
      ))

module _ (b : AllocationBitmap) (valid : IsValid b) where
  abbrev set_below : ℕ → ℕ
  set_below i = ones_below (bit_value b.bitmap) i

  abbrev next_run : Bool → ℕ → ℕ
  next_run ones i = if ones then count_one_bits b i b.max_bits else count_zero_bits b i b.max_bits

  next_run-Counts :
      (ones : Bool) (i : ℕ) → i ≤ b.max_bits → Counts b ones i b.max_bits (next_run ones i)
  next_run-Counts true i h = count_one_bits-Counts b valid i b.max_bits h
  next_run-Counts false i h = count_zero_bits-Counts b valid i b.max_bits h

  some_counted :
      (ones : Bool) (i n : ℕ)
      → i < b.max_bits
      → Counts b ones i b.max_bits n
      → bit_value b.bitmap i ≡ ones
      → 0 < n
  some_counted ones i zero lt counts e =
      let here : i + 0 ≡ i = omega arith in
      let clear : bit_value b.bitmap i ≡ not ones =
        rw here at (counts.stop (omega arith) (omega arith)) in
      absurd (differ ones (sym e ∙ clear))
    where
      differ : (v : Bool) → v ≡ not v → ⊥
      differ true h = cc
      differ false h = cc
  some_counted ones i (suc n) lt counts e = omega arith

  enough_left :
      (ones : Bool) (i n fuel extra : ℕ)
      → i < b.max_bits
      → b.max_bits + extra ≤ i + suc fuel
      → Counts b ones i b.max_bits n
      → (bit_value b.bitmap i ≡ ones) ⊎ (0 < extra)
      → b.max_bits + 0 ≤ i + n + fuel
  enough_left ones i n fuel extra lt enough counts (inl e) =
      omega (arith, some_counted ones i n lt counts e)
  enough_left ones i n fuel extra lt enough counts (inr h) = omega arith

  -- `extra` is the round that the first run needs if it is empty.
  info_loop_lem :
      (fuel : ℕ) (ones : Bool) (i used free extra : ℕ)
      → i ≤ b.max_bits
      → b.max_bits + extra ≤ i + fuel
      → (i < b.max_bits → (bit_value b.bitmap i ≡ ones) ⊎ (0 < extra))
      → used ≡ set_below i
      → free ≡ i - set_below i
      → info_loop fuel b ones i used free
        ≡ (set_below b.max_bits, b.max_bits - set_below b.max_bits)
  unfolding info_loop
  info_loop_lem zero ones i used free extra inside enough turn u f =
      let end : i ≡ b.max_bits = omega arith in rw (u, f, end)
  info_loop_lem (suc fuel) ones i used free extra inside enough turn u f =
      elim (lt-or-le b.max_bits i) [
        | inl past ↦ absurd (omega arith)
        | inr _ ↦ elim (lt-or-le i b.max_bits) [
          | inr le ↦
              let end : i ≡ b.max_bits = omega arith in
              rw (le→ltb _ _ le) (ground (arith, u, f, end))
          | inl lt ↦
              let n = next_run ones i in
              let counts = next_run-Counts ones i inside in
              let total = ones_below-run (bit_value b.bitmap) ones i n counts.bits in
              let bound = ones_below-le (bit_value b.bitmap) i in
              rw (lt→ltb _ _ lt) (
                info_loop_lem fuel (not ones) (i + n) _ _ 0 counts.inside
                  (enough_left ones i n fuel extra lt enough counts (turn lt))
                  (λ l. inl (counts.stop (omega arith) l)) (ground (arith, total, u))
                  (ground (arith, total, u, f, bound)))
        ]
      ]

-- On a valid bitmap `get_info` does not fail. `used` is eight times the number of set bits below
-- `max_bits`, `free` eight times the number of clear ones, and `total` is their sum.
pub get_info_lem :
    (b : AllocationBitmap)
    → IsValid b
    → let n = ones_below (bit_value b.bitmap) b.max_bits in
      (get_info b
        ≡ returns (record { total = b.max_bits * 8; used = n * 8; free = (b.max_bits - n) * 8 }))
      × (n ≤ b.max_bits)
unfolding get_info ones_below
get_info_lem b valid =
    let n = ones_below (bit_value b.bitmap) b.max_bits in
    let bound = ones_below-le (bit_value b.bitmap) b.max_bits in
    let counted =
      info_loop_lem b valid (2 * b.max_bits + 2) false 0 0 0 1 (omega arith) (omega arith)
        (λ h. inr (omega arith)) refl refl in
    let checked : (b.max_bits - n + n == b.max_bits) ≡ true = ≡→== _ _ (omega arith) in
    (rw (counted, checked), bound)
