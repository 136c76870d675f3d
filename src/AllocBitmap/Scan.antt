-- ===== src/AllocBitmap/Scan.antt =====
-- What `count_zero_bits` and `count_one_bits` count, on a well-formed bitmap.
use ring3k.Prelude.{
  ℕ, zero, suc, ◌+◌, ◌*◌, ◌≤◌, ◌<◌, ◌≡◌, inl, inr, Bool, true, false, not, Bool-cases, lt-or-le,
  length, arith,
}
use ring3k.AllocBitmap.{
  AllocationBitmap, word_mod, clip, count_while, count_zero_bits, count_one_bits, bit_value,
}
use ring3k.AllocBitmap.Bits.{IsBytes}

-- The bits are bytes enough for `max_bits`, and the area lies in the address space, not at 0.
pub record IsValid (b : AllocationBitmap) : Type 0 where
  pub bytes : IsBytes b.bitmap
  pub sized : length b.bitmap * 8 ≡ b.max_bits
  pub mapped : 0 < b.ptr
  pub fits : b.ptr + b.max_bits * 8 ≤ word_mod

-- `c` is the length of the run of `p` from `n` on, cut off after `left`.
pub record IsRun (p : ℕ → Bool) (n left c : ℕ) : Type 0 where
  pub within : c ≤ left
  pub all : (k : ℕ) → n ≤ k → k < n + c → p k ≡ true
  pub stop : c < left → p (n + c) ≡ false

count_while-IsRun : (p : ℕ → Bool) (n left : ℕ) → IsRun p n left (count_while p n left)
unfolding count_while
count_while-IsRun p n zero = record {
  within = omega arith;
  all = λ k h l. absurd (omega arith);
  stop = λ h. absurd (omega arith);
}
count_while-IsRun p n (suc left) =
    let rest = count_while-IsRun p (n + 1) left in
    elim (Bool-cases (p n)) [
      | inl yes_p ↦ rw yes_p (record {
        within = omega (arith, rest.within);
        all = λ k h l. all_from k h l yes_p rest;
        stop = λ h. next_stop h rest;
      })
      | inr no_p ↦ rw no_p (record {
        within = omega arith;
        all = λ k h l. absurd (omega arith);
        stop = λ h. ground (arith, no_p);
      })
    ]
  where
    all_from :
        (k : ℕ)
        → n ≤ k
        → k < n + suc (count_while p (n + 1) left)
        → p n ≡ true
        → IsRun p (n + 1) left (count_while p (n + 1) left)
        → p k ≡ true
    all_from k h l e r = elim (lt-or-le n k) [
      | inl lt ↦ r.all k (omega arith) (omega arith)
      | inr le ↦ let same : k ≡ n = omega arith in rw same e
    ]

    next_stop :
        suc (count_while p (n + 1) left) < suc left
        → IsRun p (n + 1) left (count_while p (n + 1) left)
        → p (n + suc (count_while p (n + 1) left)) ≡ false
    next_stop h r =
        let same : n + suc (count_while p (n + 1) left) ≡ n + 1 + count_while p (n + 1) left =
          omega arith in
        rw same (r.stop (omega arith))

-- A run of bits with the value `v`, from `start`, at most `max` long and inside the bitmap.
pub record Counts (b : AllocationBitmap) (v : Bool) (start max c : ℕ) : Type 0 where
  pub at_most : c ≤ max
  pub inside : start + c ≤ b.max_bits
  pub bits : (k : ℕ) → start ≤ k → k < start + c → bit_value b.bitmap k ≡ v
  pub stop : c < max → start + c < b.max_bits → bit_value b.bitmap (start + c) ≡ not v

module _ (b : AllocationBitmap) (valid : IsValid b) (start max : ℕ)
    (inside : start ≤ b.max_bits) where
  clip_bounds :
      (clip b start max ≤ max)
      × (start + clip b start max ≤ b.max_bits)
      × ((c : ℕ) → c < max → start + c < b.max_bits → c < clip b start max)
  clip_bounds =
      let small : b.max_bits < word_mod = omega (arith, valid.fits, valid.mapped) in
      (ground arith, ground arith, λ c h l. ground arith)

  pub count_zero_bits-Counts : Counts b false start max (count_zero_bits b start max)
  unfolding count_zero_bits
  count_zero_bits-Counts =
      let run = count_while-IsRun (λ n. not (bit_value b.bitmap n)) start (clip b start max) in
      let bounds = clip_bounds in
      record {
        at_most = omega (arith, run.within, bounds.0);
        inside = omega (arith, run.within, bounds.1);
        bits = λ k h l. ground (arith, run.all k h l);
        stop = λ h l. ground (arith, run.stop (bounds.2 _ h l));
      }

  pub count_one_bits-Counts : Counts b true start max (count_one_bits b start max)
  unfolding count_one_bits
  count_one_bits-Counts =
      let run = count_while-IsRun (bit_value b.bitmap) start (clip b start max) in
      let bounds = clip_bounds in
      record {
        at_most = omega (arith, run.within, bounds.0);
        inside = omega (arith, run.within, bounds.1);
        bits = λ k h l. run.all k h l;
        stop = λ h l. run.stop (bounds.2 _ h l);
      }
