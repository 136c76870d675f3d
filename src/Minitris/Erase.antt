-- ===== src/Minitris/Erase.antt =====
-- `erase_rows` of programs/minitris/minitris.c against the rows that are not full.
use ring3k.Prelude.{
  ℕ, zero, suc, ◌+◌, ◌-◌, ◌≤◌, ◌<◌, ◌≡◌, refl, ap, ◌∙◌, subst, inl, inr, true, false, leb,
  if◌then◌else◌, Bool-cases, lt-or-le, leb→le, leb→lt, some, ◌∷◌, length, get_elem?, arith,
}
use ring3k.Prelude.Signed.{origin}
use ring3k.Minitris.{Board, move_row, erase_loop, erase_rows}
use ring3k.Minitris.Rows.{cell, is_full, is_full_same}
use ring3k.Minitris.Shift.{
  kept, block_of, IsErased, IsShifted, loop_end, loop_full, loop_kept, shifted, below,
}

module _ (b0 : Board) where
  -- What the loop gives from the row above row `n` with `m` rows left.
  record Outcome (k n m c : ℕ) (b : Board) : Type 0 where
    pub count : ℕ
    pub result : Board
    pub all_rows : count + length (kept b0 m) ≡ n
    pub runs : erase_loop k b (origin + n - 1) (origin + c) ≡ some (origin + count, result)
    pub erased : IsErased b0 result n m count
    pub same : (r i : ℕ) → n ≤ r → r < 20 → i < 10 → cell result r i ≡ cell b r i

  finish : (k n : ℕ) (b : Board) → n ≤ 20 → IsShifted b0 b n 0 → Outcome (suc k) n 0 n b
  unfolding kept
  finish k n b h at = record {
    count = n;
    result = b;
    all_rows = omega arith;
    runs = loop_end k n b h;
    erased = record {
      packed = λ r i hr hi le. at.current r i (omega (arith, hr, le)) hi;
      untouched = λ r i hr hi. at.old r i hr hi;
    };
    same = λ r i hr small hi. refl;
  }

  after_full :
      (k n m c : ℕ) (b : Board)
      → n < 20
      → n ≡ c + m
      → is_full b0 m ≡ true
      → is_full b n ≡ true
      → Outcome k (suc n) m (suc c) (move_row b (origin + suc n - 1) (origin + m - 1))
      → Outcome (suc k) (suc n) (suc m) c b
  unfolding kept
  after_full k n m c b h e full0 full o =
      let list : kept b0 (suc m) ≡ kept b0 m = rw full0 in
      record {
        count = o.count;
        result = o.result;
        all_rows = rw list o.all_rows;
        runs = loop_full k c n m b h e full ∙ o.runs;
        erased = record {
          packed = λ r i hr hi le. rw list (o.erased.packed r i hr hi le);
          untouched = o.erased.untouched;
        };
        same = λ r i hr small hi.
            o.same r i hr small hi ∙ below b (suc n) m r i hr (omega arith) small hi;
      }

  after_kept :
      (k n m c : ℕ) (b : Board)
      → n < 20
      → n ≡ c + m
      → IsShifted b0 b (suc n) (suc m)
      → is_full b0 m ≡ false
      → is_full b n ≡ false
      → Outcome k n m c (move_row b (origin + n - 1) (origin + m - 1))
      → Outcome (suc k) (suc n) (suc m) c b
  unfolding kept
  after_kept k n m c b h e at off0 off o =
      let list : kept b0 (suc m) ≡ m ∷ kept b0 m = rw off0 in
      record {
        count = o.count;
        result = o.result;
        all_rows = rw list (let all = o.all_rows in omega (arith, all));
        runs = loop_kept k c n m b h e off ∙ o.runs;
        erased = record {
          packed = λ r i hr hi le. rw list (packed r i hr hi le);
          untouched = o.erased.untouched;
        };
        same = λ r i hr small hi. unmoved r i (omega (arith, hr)) small hi;
      }
    where
      unmoved : (r i : ℕ) → n ≤ r → r < 20 → i < 10 → cell o.result r i ≡ cell b r i
      unmoved r i hr small hi = o.same r i hr small hi ∙ below b n m r i hr (omega arith) small hi

      packed :
          (r i : ℕ)
          → r < suc n
          → i < 10
          → o.count ≤ suc r
          → cell o.result r i ≡ block_of b0 (get_elem? (m ∷ kept b0 m) (suc n - suc r)) i
      packed r i hr hi le = elim (lt-or-le r n) [
        | inl later ↦
            let next : suc n - suc r ≡ suc (n - suc r) = omega (arith, later) in
            rw next (o.erased.packed r i later hi le)
        | inr here ↦
            let is_n : r ≡ n = omega (arith, here, hr) in
            let first : suc n - suc r ≡ 0 = omega (arith, is_n) in
            rw first (unmoved r i here (omega (arith, is_n)) hi ∙ at.current r i (ap suc is_n) hi)
      ]

  erase_lem :
      (k m n c : ℕ) (b : Board)
      → n ≤ 20
      → n ≡ c + m
      → m < k
      → IsShifted b0 b n m
      → Outcome k n m c b
  erase_lem zero m n c b h e small at = absurd (omega (arith, small))
  erase_lem (suc k) zero n c b h e small at =
      let same : n ≡ c = omega arith in
      subst (λ c'. Outcome (suc k) n 0 c' b) same (finish k n b h at)
  erase_lem (suc k) (suc m) zero c b h e small at = absurd (omega (arith, e))
  erase_lem (suc k) (suc m) (suc n) c b h e small at =
      let here = is_full_same b b0 n m (λ i hi. at.current n i refl hi) in
      let sum : n ≡ c + m = omega (arith, e) in
      elim (Bool-cases (is_full b0 m)) [
        | inl full ↦ after_full k n m c b (omega (arith, h)) sum full (here ∙ full) (
            erase_lem k m (suc n) (suc c) _ h (omega (arith, sum)) (omega (arith, small))
              (shifted b0 b (suc n) (suc n) m h (omega arith) (omega (arith, sum)) at.old))
        | inr off ↦ after_kept k n m c b (omega (arith, h)) sum at off (here ∙ off) (
            erase_lem k m n c _ (omega (arith, h)) sum (omega (arith, small))
              (shifted b0 b (suc n) n m h (omega arith) (omega (arith, sum)) at.old))
      ]

-- `erase_rows` ends and returns the number of rows that were full. From the row above as many as
-- were erased down, the board has the rows that were not full, in their order from the bottom, and
-- black above them. The rows further up, of which there are some if two or more were erased, stay
-- as they were.
pub erase_rows_lem :
    (b : Board)
    → (count : ℕ) × (b' : Board) × (erase_rows b ≡ some (origin + count, b'))
      × (count + length (kept b 20) ≡ 20)
      × ((r i : ℕ)
          → r < 20
          → i < 10
          → cell b' r i ≡ (
              if leb count (suc r)
              then block_of b (get_elem? (kept b 20) (19 - r)) i
              else cell b r i))
unfolding erase_rows
erase_rows_lem b =
    let o = erase_lem b 21 20 20 0 b (omega arith) (omega arith) (omega arith) at_start in
    (
      o.count,
      o.result,
      o.runs,
      o.all_rows,
      λ r i hr hi. elim (Bool-cases (leb o.count (suc r))) [
        | inl low ↦ rw (low, from_bottom r) (o.erased.packed r i hr hi (leb→le o.count (suc r) low))
        | inr high ↦ rw high (o.erased.untouched r i (leb→lt o.count (suc r) high) hi)
      ],
    )
  where
    at_start : IsShifted b b 20 20
    at_start = record {
      old = λ r i hr hi. refl;
      current = λ r i hr hi. let last : r ≡ 19 = omega (arith, hr) in ap (λ r'. cell b r' i) last;
    }

    from_bottom : (r : ℕ) → 19 - r ≡ 20 - suc r
    from_bottom r = omega arith
