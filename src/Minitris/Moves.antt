-- ===== src/Minitris/Moves.antt =====
-- The moves of the piece in programs/minitris/minitris.c.
use ring3k.Prelude.{
  ℕ, ◌+◌, ◌%◌, ◌^◌, ◌<◌, ◌≡◌, refl, sym, ap, ◌∙◌, inl, inr, Bool, true, false, ◌==◌, if◌then◌else◌,
  Bool-cases, ≡→==, arith,
}
use ring3k.Prelude.Signed.{add_int, sub_int}
use ring3k.Minitris.{
  black, one, Board, block_at_cursor, block_fits_at, Game, try_place, move_down, move_left,
  move_right, do_rotate,
}
use ring3k.Minitris.Board.{covers, block_at_cursor_lem, block_fits_at_lem}

-- The board without the piece.
abbrev pub rest : Game → Board
rest g p = if covers g.type g.orientation g.x g.y p then black else g.board p

-- The game with the piece at another place.
abbrev pub placed : Game → ℕ → ℕ → ℕ → Game
placed g orientation x y = record g {
  orientation = orientation;
  x = x;
  y = y;
  board = λ p. if covers g.type orientation x y p then g.color else rest g p;
}

-- The piece is on the board in its colour, and the blocks under it were black.
pub record IsPlaced (g : Game) : Type 0 where
  pub type : g.type < 7
  pub orientation : g.orientation < 4
  pub next_type : g.next_type < 7
  pub range : (g.x < 2 ^ 32) × (g.y < 2 ^ 32)
  pub colored : (p : ℕ) → covers g.type g.orientation g.x g.y p ≡ true → g.board p ≡ g.color
  pub fits : block_fits_at (rest g) g.type g.orientation g.x g.y ≡ true

off-rest : (g : Game) → block_at_cursor g.board g.type g.orientation g.x g.y black ≡ rest g
off-rest g = λ i p. block_at_cursor_lem g.board g.type g.orientation g.x g.y black p i

repaint :
    (g : Game) (b : Board) (orientation x y : ℕ)
    → block_at_cursor b g.type orientation x y g.color ≡ λ p.
        if covers g.type orientation x y p then g.color else b p
repaint g b orientation x y = λ i p. block_at_cursor_lem b g.type orientation x y g.color p i

-- Putting the piece back where it was restores the board.
pub restored : (g : Game) → IsPlaced g → placed g g.orientation g.x g.y ≡ g
restored g w = ap (λ b. record g { board = b }) (λ i p. same p i)
  where
    same :
        (p : ℕ) → (if covers g.type g.orientation g.x g.y p then g.color else rest g p) ≡ g.board p
    same p = elim (Bool-cases (covers g.type g.orientation g.x g.y p)) [
      | inl e ↦ rw e (sym (w.colored p e))
      | inr e ↦ rw e
    ]

pub try_place_lem :
    (g : Game) (orientation x y : ℕ)
    → IsPlaced g
    → try_place g orientation x y
      ≡ (if block_fits_at (rest g) g.type orientation x y then placed g orientation x y else g)
unfolding try_place
try_place_lem g orientation x y w =
    elim (Bool-cases (block_fits_at (rest g) g.type orientation x y)) [
      | inl e ↦ rw (off-rest g, e) (rw (repaint g (rest g) orientation x y))
      | inr e ↦
          rw (off-rest g, e)
            (ap (λ b. record g { board = b }) (repaint g (rest g) g.orientation g.x g.y)
              ∙ restored g w)
    ]

-- Taking a piece off a board that it fits on gives the board back.
pub painted_rest :
    (b : Board) (type orientation x y color : ℕ)
    → block_fits_at b type orientation x y ≡ true
    → (λ p.
        if covers type orientation x y p
        then black
        else if covers type orientation x y p
        then color
        else b p)
      ≡ b
painted_rest b type orientation x y color f = λ i p. at p i
  where
    at :
        (p : ℕ)
        → (if covers type orientation x y p
            then black
            else if covers type orientation x y p
            then color
            else b p)
          ≡ b p
    at p = elim (Bool-cases (covers type orientation x y p)) [
      | inl e ↦ rw e (sym (block_fits_at_lem b type orientation x y p f e))
      | inr e ↦ rw e
    ]

-- A piece at a place where it fits.
pub placed-IsPlaced :
    (g : Game) (orientation x y : ℕ)
    → IsPlaced g
    → block_fits_at (rest g) g.type orientation x y ≡ true
    → orientation < 4
    → x < 2 ^ 32
    → y < 2 ^ 32
    → IsPlaced (placed g orientation x y) × (rest (placed g orientation x y) ≡ rest g)
placed-IsPlaced g orientation x y w f o small_x small_y =
    let same = painted_rest (rest g) g.type orientation x y g.color f in
    (
      record {
        type = w.type;
        orientation = o;
        next_type = w.next_type;
        range = (small_x, small_y);
        colored = λ p c. rw c;
        fits = ap (λ b. block_fits_at b g.type orientation x y) same ∙ f;
      },
      same,
    )

-- What a move to a place is: it succeeds if the piece fits there when it is off the board.
abbrev pub attempt : Game → ℕ → ℕ → ℕ → Bool × Game
attempt g orientation x y =
    if block_fits_at (rest g) g.type orientation x y
    then (true, placed g orientation x y)
    else (false, g)

-- A move returns whether the changed coordinate is the new one.
attempt_lem :
    (g : Game) (orientation x y : ℕ) (is_new : Game → Bool)
    → IsPlaced g
    → is_new (placed g orientation x y) ≡ true
    → is_new g ≡ false
    → (is_new (try_place g orientation x y), try_place g orientation x y)
      ≡ attempt g orientation x y
attempt_lem g orientation x y is_new w new old =
    let e = try_place_lem g orientation x y w in
    elim (Bool-cases (block_fits_at (rest g) g.type orientation x y)) [
      | inl f ↦ rw (e, f, new)
      | inr f ↦ rw (e, f, old)
    ]

same_== : (a : ℕ) → (a == a) ≡ true
same_== a = ≡→== a a refl

below_== : (y : ℕ) → y < 2 ^ 32 → (y == add_int y one) ≡ false
below_== y h = ground arith

above_== : (y : ℕ) → y < 2 ^ 32 → (y == sub_int y one) ≡ false
above_== y h = ground arith

turned_== : (o : ℕ) → o < 4 → (o == (o + 1) % 4) ≡ false
turned_== o h = ground arith

-- `move_down`, `move_left`, `move_right` and `do_rotate` succeed exactly if the piece fits at its
-- new place on the board without it. Then it is at this place, and the rest of the board is as it
-- was; else nothing changes.
pub moves_lem :
    (g : Game)
    → IsPlaced g
    → (move_down g ≡ attempt g g.orientation g.x (add_int g.y one))
      × (move_left g ≡ attempt g g.orientation (sub_int g.x one) g.y)
      × (move_right g ≡ attempt g g.orientation (add_int g.x one) g.y)
      × (do_rotate g ≡ attempt g ((g.orientation + 1) % 4) g.x g.y)
unfolding move_down move_left move_right do_rotate
moves_lem g w =
    let down = add_int g.y one in
    let left = sub_int g.x one in
    let right = add_int g.x one in
    let next = (g.orientation + 1) % 4 in
    (
      attempt_lem g g.orientation g.x down (λ g'. g'.y == down) w (same_== down)
          (below_== g.y w.range.1),
      attempt_lem g g.orientation left g.y (λ g'. g'.x == left) w (same_== left)
          (above_== g.x w.range.0),
      attempt_lem g g.orientation right g.y (λ g'. g'.x == right) w (same_== right)
          (below_== g.x w.range.0),
      attempt_lem g next g.x g.y (λ g'. g'.orientation == next) w (same_== next)
          (turned_== g.orientation w.orientation),
    )
