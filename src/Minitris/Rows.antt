-- ===== src/Minitris/Rows.antt =====
-- The rows of the board of programs/minitris/minitris.c, by index: `row_full` and `move_row`.
use ring3k.Prelude.{
  ℕ, zero, suc, ◌+◌, ◌-◌, ◌*◌, ◌≤◌, ◌<◌, ◌≡◌, ◌≢◌, refl, sym, ap, ◌∙◌, inl, inr, Bool, true, false,
  not, ◌&&◌, ◌||◌, ltb, leb, ◌==◌, if◌then◌else◌, Bool-cases, ==→≡, ==→≢, none, some, List, [], ◌∷◌,
  arith,
}
use ring3k.Prelude.Signed.{origin}
use ring3k.Minitris.{
  black, Board, write_ptr, get_block_ptr, columns, full_columns, row_full, source_block,
  move_columns, move_row,
}

-- The block in a row and a column.
abbrev pub cell : Board → ℕ → ℕ → ℕ
cell b r i = b (r * 10 + i)

-- The block above row `n`, black above the top.
abbrev pub above : Board → ℕ → ℕ → ℕ
above b zero i = black
above b (suc r) i = cell b r i

all_columns : List ℕ → Bool
all_columns [] = true
all_columns (k ∷ rest) = ltb k 10 && all_columns rest

has_column : List ℕ → ℕ → Bool
has_column [] i = false
has_column (k ∷ rest) i = (k == i) || has_column rest i

ptr_lem : (r i : ℕ) → r < 20 → i < 10 → get_block_ptr (origin + i) (origin + r) ≡ some (r * 10 + i)
unfolding get_block_ptr
ptr_lem r i h k =
    let column : origin + i - origin ≡ i = omega arith in
    let row : origin + r - origin ≡ r = omega arith in
    let a : ltb (origin + i) origin ≡ false = ground arith in
    let b : leb (origin + 10) (origin + i) ≡ false = ground arith in
    let c : ltb (origin + r) origin ≡ false = ground arith in
    let d : leb (origin + 20) (origin + r) ≡ false = ground arith in rw (a, b, c, d, column, row)

no_ptr : (i : ℕ) → get_block_ptr i (origin - 1) ≡ none
unfolding get_block_ptr
no_ptr i = ground arith

-- Of the columns in the list, none is black in the row.
full_cells : List ℕ → Board → ℕ → Bool
full_cells [] b r = true
full_cells (k ∷ rest) b r = not (cell b r k == black) && full_cells rest b r

pub is_full : Board → ℕ → Bool
unfolding full_cells
is_full b r = full_cells columns b r

full_columns_lem :
    (cs : List ℕ) (b : Board) (r : ℕ)
    → r < 20
    → all_columns cs ≡ true
    → full_columns cs b (origin + r) ≡ some (full_cells cs b r)
unfolding full_columns full_cells all_columns
full_columns_lem [] b r h small = refl
full_columns_lem (k ∷ rest) b r h small =
    let e = ptr_lem r k h (ground arith) in
    let later = full_columns_lem rest b r h (ground arith) in
    elim (Bool-cases (cell b r k == black)) [
      | inl f ↦ rw (full_columns, e, f)
      | inr f ↦ rw (full_columns, e, f) later
    ]

pub row_full_lem : (b : Board) (r : ℕ) → r < 20 → row_full b (origin + r) ≡ some (is_full b r)
unfolding row_full is_full all_columns
row_full_lem b r h = full_columns_lem columns b r h refl

full_cells_same :
    (cs : List ℕ) (b b' : Board) (r r' : ℕ)
    → all_columns cs ≡ true
    → ((i : ℕ) → i < 10 → cell b r i ≡ cell b' r' i)
    → full_cells cs b r ≡ full_cells cs b' r'
unfolding full_cells all_columns
full_cells_same [] b b' r r' small same = refl
full_cells_same (k ∷ rest) b b' r r' small same =
    let here = same k (ground arith) in
    rw (here, full_cells_same rest b b' r r' (ground arith) same)

pub is_full_same :
    (b b' : Board) (r r' : ℕ)
    → ((i : ℕ) → i < 10 → cell b r i ≡ cell b' r' i)
    → is_full b r ≡ is_full b' r'
unfolding is_full all_columns
is_full_same b b' r r' same = full_cells_same columns b b' r r' refl same

same_index :
    (t k r i : ℕ) → k < 10 → i < 10 → (t * 10 + k == r * 10 + i) ≡ ((suc r == suc t) && (k == i))
same_index t k r i hk hi = ground arith

-- A write to a column of the row above row `t`.
wrote :
    (b : Board) (t k v r i : ℕ)
    → t ≤ 20
    → k < 10
    → r < 20
    → i < 10
    → cell (write_ptr b (get_block_ptr (origin + k) (origin + t - 1)) v) r i
      ≡ (if (suc r == t) && (k == i) then v else cell b r i)
wrote b zero k v r i h hk hr hi =
    let off : (suc r == 0) ≡ false = ground arith in rw (no_ptr (origin + k), off)
wrote b (suc t) k v r i h hk hr hi =
    let row : origin + suc t - 1 ≡ origin + t = omega arith in
    let same : (t * 10 + k == r * 10 + i) ≡ ((suc r == suc t) && (k == i)) =
      same_index t k r i hk hi in
    rw (row, ptr_lem t k (omega arith) hk, same)

read_lem :
    (b : Board) (f k : ℕ)
    → f ≤ 20
    → k < 10
    → source_block b (get_block_ptr (origin + k) (origin + f - 1)) ≡ above b f k
read_lem b zero k h hk = rw (no_ptr (origin + k))
read_lem b (suc f) k h hk =
    let row : origin + suc f - 1 ≡ origin + f = omega arith in
    rw (row, ptr_lem f k (omega arith) hk)

column_or :
    (on here later : Bool) (w v x : ℕ)
    → (here ≡ true → v ≡ w)
    → (if on && later then w else if on && here then v else x)
      ≡ (if on && (here || later) then w else x)
column_or false here later w v x e = refl
column_or true true true w v x e = refl
column_or true true false w v x e = e refl
column_or true false later w v x e = refl

-- The loop of `move_row` from the row above row `f` to the row above row `t`.
move_columns_lem :
    (cs : List ℕ) (b : Board) (t f r i : ℕ)
    → all_columns cs ≡ true
    → t ≤ 20
    → f ≤ 20
    → t ≢ f
    → r < 20
    → i < 10
    → cell (move_columns cs b (origin + t - 1) (origin + f - 1)) r i
      ≡ (if (suc r == t) && has_column cs i then above b f i else cell b r i)
unfolding move_columns all_columns has_column
move_columns_lem [] b t f r i small ht hf n hr hi = ground arith
move_columns_lem (k ∷ rest) b t f r i small ht hf n hr hi =
    let hk : k < 10 = ground arith in
    let v = above b f k in
    let b' = write_ptr b (get_block_ptr (origin + k) (origin + t - 1)) v in
    rw (read_lem b f k hf hk) (
      move_columns_lem rest b' t f r i (ground arith) ht hf n hr hi
      ∙ rw (wrote b t k v r i ht hk hr hi, same_above f hf n)
          (column_or (suc r == t) (k == i) (has_column rest i) (above b f i) v (cell b r i)
            (λ e. ap (above b f) (==→≡ k i e))))
  where
    same_above :
        (f : ℕ)
        → f ≤ 20
        → t ≢ f
        → above (write_ptr b (get_block_ptr (origin + k) (origin + t - 1)) (above b f k)) f i
          ≡ above b f i
    same_above zero hf n = refl
    same_above (suc q) hf n =
        wrote b t k (cell b q k) q i ht (ground arith) (omega arith) hi
        ∙ (let off : (suc q == t) ≡ false = ground arith in rw off)

all_of_them : all_columns columns ≡ true
unfolding all_columns
all_of_them = refl

any_of_them : (i : ℕ) → i < 10 → has_column columns i ≡ true
unfolding has_column
any_of_them i h = ground arith

not_same : (t f : ℕ) → (t == f) ≡ false → (origin + f - 1 == origin + t - 1) ≡ false
not_same t f n = ground arith

-- `move_row` copies the row above row `f` to the row above row `t`, if there is one; what is above
-- the top is black.
pub move_row_lem :
    (b : Board) (t f r i : ℕ)
    → t ≤ 20
    → f ≤ 20
    → r < 20
    → i < 10
    → cell (move_row b (origin + t - 1) (origin + f - 1)) r i
      ≡ (if suc r == t then above b f i else cell b r i)
unfolding move_row
move_row_lem b t f r i ht hf hr hi = elim (Bool-cases (t == f)) [
  | inl e ↦
      let same : (origin + f - 1 == origin + t - 1) ≡ true = ground arith in
      rw same (unmoved (==→≡ t f e))
  | inr n ↦
      let apart : (origin + f - 1 == origin + t - 1) ≡ false = not_same t f n in
      rw apart (
        move_columns_lem columns b t f r i all_of_them ht hf (==→≢ t f n) hr hi
        ∙ (let any = any_of_them i hi in ground arith))
]
  where
    unmoved : t ≡ f → cell b r i ≡ (if suc r == t then above b f i else cell b r i)
    unmoved e = elim (Bool-cases (suc r == t)) [
      | inl on ↦ rw (on, sym e, sym (==→≡ (suc r) t on))
      | inr off ↦ rw off
    ]
