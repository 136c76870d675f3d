-- ===== src/Minitris/Shift.antt =====
-- Single steps of the loop of `erase_rows` in programs/minitris/minitris.c.
use ring3k.Prelude.{
  ℕ, zero, suc, ◌+◌, ◌-◌, ◌≤◌, ◌<◌, ◌≡◌, refl, ap, ◌∙◌, Bool, true, false, ltb, ◌==◌, if◌then◌else◌,
  Option, none, some, List, [], ◌∷◌, get_elem?, arith,
}
use ring3k.Prelude.Signed.{origin, add_int, sub_int}
use ring3k.Minitris.{black, one, Board, row_full, move_row, erase_loop}
use ring3k.Minitris.Rows.{cell, above, is_full, row_full_lem, move_row_lem}

-- The rows above row `n` that are not full, from the lowest to the highest.
unfoldable pub kept : Board → ℕ → List ℕ
kept b zero = []
kept b (suc r) = if is_full b r then kept b r else r ∷ kept b r

-- The block in column `i` of a row, black for none.
abbrev pub block_of : Board → Option ℕ → ℕ → ℕ
block_of b none i = black
block_of b (some r) i = cell b r i

-- The board `b'` after the loop of `erase_rows` from the row above row `n`, when the rows above row
-- `m` of `b` are left and `c` rows collapse in all.
pub record IsErased (b b' : Board) (n m c : ℕ) : Type 0 where
  pub packed :
      (r i : ℕ)
      → r < n
      → i < 10
      → c ≤ suc r
      → cell b' r i ≡ block_of b (get_elem? (kept b m) (n - suc r)) i
  pub untouched : (r i : ℕ) → suc r < c → i < 10 → cell b' r i ≡ cell b r i

-- The board `b` in the loop: the rows above the current one are those of `b0`, and the current one
-- is the lowest of the `m` rows of `b0` that are left.
pub record IsShifted (b0 b : Board) (n m : ℕ) : Type 0 where
  pub old : (r i : ℕ) → suc r < n → i < 10 → cell b r i ≡ cell b0 r i
  pub current : (r i : ℕ) → suc r ≡ n → i < 10 → cell b r i ≡ above b0 m i

pub loop_end :
    (k c : ℕ) (b : Board)
    → c ≤ 20
    → erase_loop (suc k) b (origin + c - 1) (origin + c) ≡ some (origin + c, b)
unfolding erase_loop
loop_end k c b h =
    let less : ltb (origin + c - 1) (origin + c) ≡ true = ground arith in rw (erase_loop, less)

loop_step :
    (k row collapsed : ℕ) (b : Board) (full : Bool)
    → ltb row collapsed ≡ false
    → row_full b row ≡ some full
    → erase_loop (suc k) b row collapsed ≡ (
        let row' = if full then row else sub_int row one in
        let collapsed' = if full then add_int collapsed one else collapsed in
        erase_loop k (move_row b row' (sub_int row' collapsed')) row' collapsed')
unfolding erase_loop
loop_step k row collapsed b full less e = rw (erase_loop, less, e)

module _ (k c n m : ℕ) (b : Board) (h : n < 20) (e : n ≡ c + m) where
  this_row : origin + suc n - 1 ≡ origin + n
  this_row = omega arith

  row_full_here : row_full b (origin + suc n - 1) ≡ some (is_full b n)
  row_full_here = ap (row_full b) this_row ∙ row_full_lem b n h

  not_less : ltb (origin + suc n - 1) (origin + c) ≡ false
  not_less = ground arith

  pub loop_full :
      is_full b n ≡ true
      → erase_loop (suc k) b (origin + suc n - 1) (origin + c)
        ≡ erase_loop k
            (move_row b (origin + suc n - 1) (origin + m - 1))
            (origin + suc n - 1)
            (origin + suc c)
  loop_full full =
      let next : add_int (origin + c) one ≡ origin + suc c = omega arith in
      let from : sub_int (origin + suc n - 1) (origin + suc c) ≡ origin + m - 1 = omega arith in
      loop_step k (origin + suc n - 1) (origin + c) b true not_less (row_full_here ∙ ap some full)
      ∙ rw (next, from)

  pub loop_kept :
      is_full b n ≡ false
      → erase_loop (suc k) b (origin + suc n - 1) (origin + c)
        ≡ erase_loop k (move_row b (origin + n - 1) (origin + m - 1)) (origin + n - 1) (origin + c)
  loop_kept off =
      let next : sub_int (origin + suc n - 1) one ≡ origin + n - 1 = omega arith in
      let from : sub_int (origin + n - 1) (origin + c) ≡ origin + m - 1 = omega arith in
      loop_step k (origin + suc n - 1) (origin + c) b false not_less (row_full_here ∙ ap some off)
      ∙ rw (next, from)

-- After the move from the row above row `m` to the row above row `t`.
pub shifted :
    (b0 b : Board) (n t m : ℕ)
    → n ≤ 20
    → t ≤ n
    → m < n
    → ((r i : ℕ) → suc r < n → i < 10 → cell b r i ≡ cell b0 r i)
    → IsShifted b0 (move_row b (origin + t - 1) (origin + m - 1)) t m
shifted b0 b n t m h ht hm old = record {
  old = λ r i hr hi.
      let off : (suc r == t) ≡ false = ground arith in
      move_row_lem b t m r i (omega arith) (omega arith) (omega arith) hi
      ∙ rw off (old r i (omega arith) hi);
  current = λ r i hr hi.
      let on : (suc r == t) ≡ true = ground arith in
      move_row_lem b t m r i (omega arith) (omega arith) (omega arith) hi
      ∙ rw on (same_above m hm i hi);
}
  where
    same_above : (m : ℕ) → m < n → (i : ℕ) → i < 10 → above b m i ≡ above b0 m i
    same_above zero hm i hi = refl
    same_above (suc q) hm i hi = old q i hm hi

-- The move changes no row below.
pub below :
    (b : Board) (t m r i : ℕ)
    → t ≤ r
    → m ≤ 20
    → r < 20
    → i < 10
    → cell (move_row b (origin + t - 1) (origin + m - 1)) r i ≡ cell b r i
below b t m r i ht hm hr hi =
    let off : (suc r == t) ≡ false = ground arith in
    move_row_lem b t m r i (omega arith) hm hr hi ∙ rw off
