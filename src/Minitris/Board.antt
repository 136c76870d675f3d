-- ===== src/Minitris/Board.antt =====
-- The 5 by 5 area of a piece on the board of programs/minitris/minitris.c.
use ring3k.Prelude.{
  ℕ, zero, suc, ◌+◌, ◌^◌, ◌≤◌, ◌<◌, ◌≡◌, ◌≢◌, refl, sym, inl, inr, Bool, true, false, not, ◌&&◌,
  ◌||◌, leb, ◌==◌, if◌then◌else◌, Bool-cases, ==→≡, Option, none, some, List, [], ◌∷◌, arith,
}
use ring3k.Prelude.Signed.{origin, add_int}
use ring3k.Minitris.{
  black, Board, write_ptr, get_block_ptr, piece_has_block, set_block, cells, paint_cells,
  block_at_cursor, is_free, fit_cells, block_fits_at,
}

abbrev is_at : Option ℕ → ℕ → Bool
is_at none p = false
is_at (some q) p = q == p

-- The block on the board is one of the piece.
pub covers_cells : (ℕ → ℕ → Bool) → List (ℕ × ℕ) → ℕ → ℕ → ℕ → Bool
covers_cells block [] x y p = false
covers_cells block ((i, j) ∷ rest) x y p =
    (block i j && is_at (get_block_ptr (add_int x (origin + i)) (add_int y (origin + j))) p)
    || covers_cells block rest x y p

pub covers : ℕ → ℕ → ℕ → ℕ → ℕ → Bool
unfolding covers_cells
covers type orientation x y p = covers_cells (piece_has_block type orientation) cells x y p

write_ptr_lem :
    (on : Bool) (ptr : Option ℕ) (b : Board) (color p : ℕ)
    → (if on then write_ptr b ptr color else b) p ≡ (if on && is_at ptr p then color else b p)
write_ptr_lem false ptr b color p = refl
write_ptr_lem true none b color p = refl
write_ptr_lem true (some q) b color p = refl

if_or :
    (first later : Bool) (c v : ℕ)
    → (if later then c else if first then c else v) ≡ (if first || later then c else v)
if_or true true c v = refl
if_or true false c v = refl
if_or false later c v = refl

is_free-black :
    (on : Bool) (ptr : Option ℕ) (b : Board) (p : ℕ)
    → (not on || is_free b ptr) ≡ true
    → (on && is_at ptr p) ≡ true
    → b p ≡ black
is_free-black false ptr b p f c = cc c
is_free-black true none b p f c = cc f
is_free-black true (some q) b p f c = rw (sym (==→≡ q p c)) (==→≡ _ _ f)

is_free-on :
    (on : Bool) (ptr : Option ℕ) (b : Board)
    → (not on || is_free b ptr) ≡ true
    → on ≡ true
    → is_free b ptr ≡ true
is_free-on on ptr b f e = ground arith

-- Some rows of the area that starts at `y` are on the board.
abbrev pub OnBoard : ℕ → Type 0
OnBoard y = (origin ≤ y + 4) × (y < origin + 20)

get_block_ptr-row : (x y : ℕ) → get_block_ptr x y ≢ none → (origin ≤ y) × (y < origin + 20)
unfolding get_block_ptr
get_block_ptr-row x y e = ground arith

is_free-row :
    (b : Board) (x y j : ℕ)
    → y < 2 ^ 32
    → leb j 4 ≡ true
    → is_free b (get_block_ptr x (add_int y (origin + j))) ≡ true
    → OnBoard y
is_free-row b x y j small low f =
    let (above, below) = get_block_ptr-row x (add_int y (origin + j)) (λ e. cc (rw e at f)) in
    let few : j ≤ 4 = ground arith in omega (arith, above, below, few)

-- The piece has a block in the area.
pub has_cell : (ℕ → ℕ → Bool) → List (ℕ × ℕ) → Bool
has_cell block [] = false
has_cell block ((i, j) ∷ rest) = (block i j && leb j 4) || has_cell block rest

all_below : ℕ → (ℕ → Bool) → Bool
all_below zero p = true
all_below (suc n) p = p n && all_below n p

all_below_lem : (n : ℕ) (p : ℕ → Bool) (k : ℕ) → all_below n p ≡ true → k < n → p k ≡ true
unfolding all_below
all_below_lem zero p k e h = absurd (omega arith)
all_below_lem (suc n) p k e h = elim (Bool-cases (n == k)) [
  | inl same ↦ rw (sym (==→≡ n k same)) (ground arith)
  | inr other ↦ all_below_lem n p k (ground arith) (ground arith)
]

pieces-have_cell :
    all_below 7
      (λ type. all_below 4 (λ orientation. has_cell (piece_has_block type orientation) cells))
    ≡ true
unfolding all_below has_cell piece_has_block
pieces-have_cell = refl

module _ (block : ℕ → ℕ → Bool) (x y : ℕ) where
  paint_cells_lem :
      (cs : List (ℕ × ℕ)) (b : Board) (color p : ℕ)
      → paint_cells block cs b x y color p ≡ (if covers_cells block cs x y p then color else b p)
  unfolding paint_cells covers_cells set_block
  paint_cells_lem [] b color p = refl
  paint_cells_lem ((i, j) ∷ rest) b color p =
      let ptr = get_block_ptr (add_int x (origin + i)) (add_int y (origin + j)) in
      rw (paint_cells_lem rest _ color p, write_ptr_lem (block i j) ptr b color p)
        (if_or (block i j && is_at ptr p) (covers_cells block rest x y p) color (b p))

  fit_cells-covers :
      (cs : List (ℕ × ℕ)) (b : Board) (p : ℕ)
      → fit_cells block cs b x y ≡ true
      → covers_cells block cs x y p ≡ true
      → b p ≡ black
  unfolding fit_cells covers_cells
  fit_cells-covers [] b p f c = cc c
  fit_cells-covers ((i, j) ∷ rest) b p f c =
      let ptr = get_block_ptr (add_int x (origin + i)) (add_int y (origin + j)) in
      elim (Bool-cases (covers_cells block rest x y p)) [
        | inl later ↦ fit_cells-covers rest b p (ground arith) later
        | inr now ↦ is_free-black (block i j) ptr b p (ground arith) (ground arith)
      ]

  fit_cells-inside :
      (cs : List (ℕ × ℕ)) (b : Board)
      → y < 2 ^ 32
      → has_cell block cs ≡ true
      → fit_cells block cs b x y ≡ true
      → OnBoard y
  unfolding fit_cells has_cell
  fit_cells-inside [] b small some_cell f = cc some_cell
  fit_cells-inside ((i, j) ∷ rest) b small some_cell f =
      let ptr = get_block_ptr (add_int x (origin + i)) (add_int y (origin + j)) in
      elim (Bool-cases (has_cell block rest)) [
        | inl later ↦ fit_cells-inside rest b small later (ground arith)
        | inr now ↦
            is_free-row b (add_int x (origin + i)) y j small (ground arith)
              (is_free-on (block i j) ptr b (ground arith) (ground arith))
      ]

-- `block_at_cursor` writes the colour to the blocks of the piece and to no other.
pub block_at_cursor_lem :
    (b : Board) (type orientation x y color p : ℕ)
    → block_at_cursor b type orientation x y color p
      ≡ (if covers type orientation x y p then color else b p)
unfolding block_at_cursor covers
block_at_cursor_lem b type orientation x y color p =
    paint_cells_lem (piece_has_block type orientation) x y cells b color p

-- A piece that fits is on black blocks.
pub block_fits_at_lem :
    (b : Board) (type orientation x y p : ℕ)
    → block_fits_at b type orientation x y ≡ true
    → covers type orientation x y p ≡ true
    → b p ≡ black
unfolding block_fits_at covers
block_fits_at_lem b type orientation x y p f c =
    fit_cells-covers (piece_has_block type orientation) x y cells b p f c

-- A piece that fits has a row on the board.
pub block_fits_at-OnBoard :
    (b : Board) (type orientation x y : ℕ)
    → type < 7
    → orientation < 4
    → y < 2 ^ 32
    → block_fits_at b type orientation x y ≡ true
    → OnBoard y
unfolding block_fits_at
block_fits_at-OnBoard b type orientation x y t o small f =
    let turns = all_below_lem 7 _ type pieces-have_cell t in
    fit_cells-inside (piece_has_block type orientation) x y cells b small
      (all_below_lem 4 (λ o. has_cell (piece_has_block type o) cells) orientation turns o) f
