-- ===== src/Minitris.antt =====
-- programs/minitris/minitris.c: the game. Its variables are the fields of Game. A number of type
-- int is as in Prelude/Signed. Drawing and messages are left out.
pub mod Rows
pub mod Board
pub mod Moves
pub mod Drop
pub mod Shift
pub mod Erase
pub mod Play
mod Tests
use package.ring3k.Prelude.{
  ℕ, zero, suc, ◌+◌, ◌-◌, ◌*◌, ◌/◌, ◌%◌, ◌^◌, bit_xor, Bool, true, false, not, ◌&&◌, ◌||◌, ltb, leb,
  ◌==◌, if◌then◌else◌, Option, none, some, List, [], ◌∷◌, get_or,
}
use package.ring3k.Prelude.Signed.{origin, add_int, sub_int}

abbrev pub board_width : ℕ
board_width = 10

abbrev pub board_height : ℕ
board_height = 20

abbrev pub black : ℕ
black = 0

-- The number 1 of type int.
abbrev pub one : ℕ
one = 2 ^ 31 + 1

-- The colours on the board by index.
abbrev pub Board : Type 0
Board = ℕ → ℕ

abbrev pub write : Board → ℕ → ℕ → Board
write b p color q = if p == q then color else b q

-- `piece`.
abbrev pub pieces : List ℕ
pieces = 1090519055 ∷ 587202613 ∷ 587202618 ∷ 838860823 ∷ 838860830 ∷ 838860851 ∷ 570425359 ∷ []

-- The index of a block, none for NULL.
pub get_block_ptr : ℕ → ℕ → Option ℕ
get_block_ptr x y =
    if ltb x origin || leb (origin + board_width) x
    then none
    else if ltb y origin || leb (origin + board_height) y
    then none
    else some ((y - origin) * board_width + (x - origin))

-- The place in the bitmap of the piece, for the place in the area of the piece as it is turned.
pub turned : ℕ → ℕ → ℕ → ℕ → ℕ → ℕ × ℕ
turned orientation size_x size_y x y =
    let (new_x, new_y) =
      if orientation % 2 == 0 then (x, y) else (sub_int (sub_int (origin + size_x) y) one, x) in
    if orientation / 2 % 2 == 0
    then (new_x, new_y)
    else (sub_int (origin + size_x - 1) new_x, sub_int (origin + size_y - 1) new_y)

-- A piece of type 7 or more is not in the array; the result for it is arbitrary.
pub piece_has_block : ℕ → ℕ → ℕ → ℕ → Bool
unfolding turned
piece_has_block type orientation x y =
    let bits = get_or pieces type 0 in
    let size_x = bits / 2 ^ 28 % 16 in
    let size_y = bits / 2 ^ 24 % 16 in
    let across = if orientation % 2 == 1 then size_y else size_x in
    let down = if orientation % 2 == 1 then size_x else size_y in
    let x' = sub_int (origin + x) (sub_int (origin + 2) (origin + across / 2)) in
    let y' = sub_int (origin + y) (sub_int (origin + 2) (origin + down / 2)) in
    if ltb x' origin || ltb y' origin
    then false
    else let (new_x, new_y) = turned orientation size_x size_y x' y' in
      if ltb new_x origin
        || leb (origin + size_x) new_x
        || ltb new_y origin
        || leb (origin + size_y) new_y
      then false
      else let place = new_x - origin + size_x * (new_y - origin) in
        not (bits / (2 ^ (size_x * size_y - 1) / 2 ^ place) % 2 == 0)

-- `if (ptr) *ptr = color;`
abbrev pub write_ptr : Board → Option ℕ → ℕ → Board
write_ptr b none color = b
write_ptr b (some p) color = write b p color

pub set_block : Board → ℕ → ℕ → ℕ → Board
unfolding get_block_ptr
set_block b x y color = write_ptr b (get_block_ptr x y) color

-- The places of the 5 by 5 area in the order of the loops.
abbrev pub cells : List (ℕ × ℕ)
cells =
    (0, 0)
    ∷ (0, 1)
    ∷ (0, 2)
    ∷ (0, 3)
    ∷ (0, 4)
    ∷ (1, 0)
    ∷ (1, 1)
    ∷ (1, 2)
    ∷ (1, 3)
    ∷ (1, 4)
    ∷ (2, 0)
    ∷ (2, 1)
    ∷ (2, 2)
    ∷ (2, 3)
    ∷ (2, 4)
    ∷ (3, 0)
    ∷ (3, 1)
    ∷ (3, 2)
    ∷ (3, 3)
    ∷ (3, 4)
    ∷ (4, 0)
    ∷ (4, 1)
    ∷ (4, 2)
    ∷ (4, 3)
    ∷ (4, 4)
    ∷ []

-- The loops of `block_at_cursor` over the places that are left; `block` is `piece_has_block`.
pub paint_cells : (ℕ → ℕ → Bool) → List (ℕ × ℕ) → Board → ℕ → ℕ → ℕ → Board
unfolding set_block
paint_cells block [] b x y color = b
paint_cells block ((i, j) ∷ rest) b x y color =
    let b' =
      if block i j
      then set_block b (add_int x (origin + i)) (add_int y (origin + j)) color
      else b in
    paint_cells block rest b' x y color

pub block_at_cursor : Board → ℕ → ℕ → ℕ → ℕ → ℕ → Board
unfolding paint_cells piece_has_block
block_at_cursor b type orientation x y color =
    paint_cells (piece_has_block type orientation) cells b x y color

abbrev pub is_free : Board → Option ℕ → Bool
is_free b none = false
is_free b (some p) = b p == black

-- The loops of `block_fits_at`.
pub fit_cells : (ℕ → ℕ → Bool) → List (ℕ × ℕ) → Board → ℕ → ℕ → Bool
unfolding get_block_ptr
fit_cells block [] b x y = true
fit_cells block ((i, j) ∷ rest) b x y =
    (not (block i j) || is_free b (get_block_ptr (add_int x (origin + i)) (add_int y (origin + j))))
    && fit_cells block rest b x y

pub block_fits_at : Board → ℕ → ℕ → ℕ → ℕ → Bool
unfolding fit_cells piece_has_block
block_fits_at b type orientation x y = fit_cells (piece_has_block type orientation) cells b x y

pub record Game : Type 0 where
  pub board : Board
  pub orientation : ℕ
  pub next_type : ℕ
  pub type : ℕ
  pub color : ℕ
  pub x : ℕ
  pub y : ℕ
  pub game_over : Bool
  pub random_store : ℕ

-- What `move_down`, `move_left`, `move_right` and `do_rotate` do: take the piece off, change its
-- place if it fits there, put it back.
pub try_place : Game → ℕ → ℕ → ℕ → Game
unfolding block_at_cursor block_fits_at
try_place g orientation x y =
    let off = block_at_cursor g.board g.type g.orientation g.x g.y black in
    let moved =
      if block_fits_at off g.type orientation x y
      then record g { orientation = orientation; x = x; y = y }
      else g in
    record moved { board = block_at_cursor off g.type moved.orientation moved.x moved.y g.color }

pub move_down : Game → Bool × Game
unfolding try_place
move_down g =
    let new_y = add_int g.y one in
    let g' = try_place g g.orientation g.x new_y in (g'.y == new_y, g')

pub move_left : Game → Bool × Game
unfolding try_place
move_left g =
    let new_x = sub_int g.x one in
    let g' = try_place g g.orientation new_x g.y in (g'.x == new_x, g')

pub move_right : Game → Bool × Game
unfolding try_place
move_right g =
    let new_x = add_int g.x one in
    let g' = try_place g g.orientation new_x g.y in (g'.x == new_x, g')

pub do_rotate : Game → Bool × Game
unfolding try_place
do_rotate g =
    let new_orientation = (g.orientation + 1) % 4 in
    let g' = try_place g new_orientation g.x g.y in (g'.orientation == new_orientation, g')

-- `drop_down`, none if the loop needs more steps than the first argument allows. The second counts
-- `rows_dropped`.
pub drop_down : ℕ → ℕ → Game → Option (ℕ × Game)
drop_down zero rows g = none
drop_down (suc n) rows g =
    let (moved, g') = move_down g in
    elim moved [ true ↦ drop_down n (rows + 1) g' | false ↦ some (rows, g') ]

-- `random_store` after `get_random_number`, which is its result too. The value of GetTickCount is
-- an argument.
pub get_random_number : ℕ → ℕ → ℕ
get_random_number ticks random_store =
    bit_xor (bit_xor (bit_xor random_store (ticks / 2 ^ 16 % 2 ^ 8)) (ticks / 2 ^ 8 % 2 ^ 8))
      (ticks % 2 ^ 8)

pub new_block : ℕ → Game → Bool × Game
unfolding block_at_cursor block_fits_at get_random_number
new_block ticks g =
    let new_x = origin + board_width / 2 - 2 in
    let new_y = origin in
    if not (block_fits_at g.board g.next_type 0 new_x new_y)
    then (false, record g { game_over = true })
    else let random = get_random_number ticks g.random_store in
      (
        true,
        record g {
          type = g.next_type;
          color = g.next_type + 1;
          orientation = 0;
          x = new_x;
          y = new_y;
          next_type = random % 7;
          random_store = random;
          board = block_at_cursor g.board g.next_type 0 new_x new_y (g.next_type + 1);
        },
      )

-- The columns in the order of the loops.
abbrev pub columns : List ℕ
columns = 0 ∷ 1 ∷ 2 ∷ 3 ∷ 4 ∷ 5 ∷ 6 ∷ 7 ∷ 8 ∷ 9 ∷ []

-- The loop of `row_full`; none if it reads through NULL.
pub full_columns : List ℕ → Board → ℕ → Option Bool
unfolding get_block_ptr
full_columns [] b row = some true
full_columns (i ∷ rest) b row = elim (get_block_ptr (origin + i) row) [
  | none ↦ none
  | some p ↦ if b p == black then some false else full_columns rest b row
]

pub row_full : Board → ℕ → Option Bool
unfolding full_columns
row_full b row = full_columns columns b row

-- What `move_row` reads.
abbrev pub source_block : Board → Option ℕ → ℕ
source_block b none = black
source_block b (some p) = b p

-- The loop of `move_row`.
pub move_columns : List ℕ → Board → ℕ → ℕ → Board
unfolding get_block_ptr
move_columns [] b to from = b
move_columns (i ∷ rest) b to from =
    let color = source_block b (get_block_ptr (origin + i) from) in
    move_columns rest (write_ptr b (get_block_ptr (origin + i) to) color) to from

pub move_row : Board → ℕ → ℕ → Board
unfolding move_columns
move_row b to from = if from == to then b else move_columns columns b to from

-- The rest of the loop after `row_full`.
abbrev pub when_read {ℓ} : {A : Type ℓ} → Option Bool → (Bool → Option A) → Option A
when_read none k = none
when_read (some full) k = k full

-- The loop of `erase_rows` from a row and a number of collapsed rows, none if it needs more steps
-- than the first argument allows.
pub erase_loop : ℕ → Board → ℕ → ℕ → Option (ℕ × Board)
erase_loop zero b row collapsed = none
erase_loop (suc n) b row collapsed = elim (ltb row collapsed) [
  | true ↦ some (collapsed, b)
  | false ↦ when_read (row_full b row) (λ full.
      let row' = if full then row else sub_int row one in
      let collapsed' = if full then add_int collapsed one else collapsed in
      erase_loop n (move_row b row' (sub_int row' collapsed')) row' collapsed')
]

-- The loop takes one step for each row, and one more to end.
pub erase_rows : Board → Option (ℕ × Board)
unfolding erase_loop
erase_rows b = erase_loop (board_height + 1) b (origin + board_height - 1) origin

-- The number of steps that is allowed to `drop_down`.
abbrev pub drop_limit : ℕ
drop_limit = board_height + 5

-- `erase_rows` and `new_block`.
pub next_block : ℕ → Game → Option Game
next_block ticks g = elim (erase_rows g.board) [
  | none ↦ none
  | some (collapsed, b) ↦ some ((new_block ticks (record g { board = b })).1)
]

pub do_space : ℕ → Game → Option (Bool × Game)
do_space ticks g = elim (drop_down drop_limit 0 g) [
  | none ↦ none
  | some (rows, g') ↦ elim (next_block ticks g') [ none ↦ none | some g'' ↦ some (true, g'') ]
]

-- The keys, by their VK codes.
pub data Key : Type 0 where
  escape : Key
  down : Key
  up : Key
  left : Key
  right : Key
  space : Key
  other : Key

pub do_keydown : ℕ → Key → Game → Option (Bool × Game)
do_keydown ticks escape g = some (false, g)
do_keydown ticks down g = if g.game_over then some (false, g) else some (move_down g)
do_keydown ticks up g = if g.game_over then some (false, g) else some (do_rotate g)
do_keydown ticks left g = if g.game_over then some (false, g) else some (move_left g)
do_keydown ticks right g = if g.game_over then some (false, g) else some (move_right g)
do_keydown ticks space g = if g.game_over then some (false, g) else do_space ticks g
do_keydown ticks other g = some (false, g)

pub do_timer : ℕ → Game → Option Game
do_timer ticks g =
    if g.game_over
    then some g
    else let (moved, g') = move_down g in
      elim moved [ true ↦ some g' | false ↦ next_block ticks g' ]

-- The variables when the program starts.
abbrev pub initial : Game
initial = record {
  board = λ p. black;
  orientation = 0;
  next_type = 0;
  type = 0;
  color = 1;
  x = origin;
  y = origin;
  game_over = false;
  random_store = 0;
}

-- The first `new_block` of `window_winmain`.
pub start : ℕ → Game
start ticks = (new_block ticks initial).1
