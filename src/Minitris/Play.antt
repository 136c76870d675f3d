-- ===== src/Minitris/Play.antt =====
-- The game of programs/minitris/minitris.c as a sequence of keys and timer events.
use ring3k.Prelude.{
  ℕ, ◌+◌, ◌%◌, ◌^◌, ◌<◌, ◌≡◌, ◌⊎◌, refl, sym, ap, subst, ◌∙◌, inl, inr, Bool, true, false,
  if◌then◌else◌, Bool-cases, Option, none, some, arith,
}
use ring3k.Prelude.Signed.{origin, add_int, sub_int}
use ring3k.Minitris.{
  black, one, block_fits_at, block_at_cursor, get_random_number, Game, move_down, move_left,
  move_right, do_rotate, new_block, next_block, do_space, Key, escape, down, up, left, right, space,
  other, do_keydown, do_timer, initial, start,
}
use ring3k.Minitris.Board.{covers, block_at_cursor_lem}
use ring3k.Minitris.Moves.{rest, IsPlaced, painted_rest, placed-IsPlaced, attempt, moves_lem}
use ring3k.Minitris.Drop.{drop_down_lem}
use ring3k.Minitris.Erase.{erase_rows_lem}

-- The game is over, or its piece is placed.
pub IsPlaying : Game → Type 0
IsPlaying g = (g.game_over ≡ true) ⊎ IsPlaced g

-- The game with a new piece.
abbrev pub begun : ℕ → Game → Game
begun ticks g = record g {
  type = g.next_type;
  color = g.next_type + 1;
  orientation = 0;
  x = origin + 3;
  y = origin;
  next_type = get_random_number ticks g.random_store % 7;
  random_store = get_random_number ticks g.random_store;
  board = block_at_cursor g.board g.next_type 0 (origin + 3) origin (g.next_type + 1);
}

pub begun-IsPlaced :
    (ticks : ℕ) (g : Game)
    → g.next_type < 7
    → block_fits_at g.board g.next_type 0 (origin + 3) origin ≡ true
    → IsPlaced (begun ticks g)
begun-IsPlaced ticks g h f =
    let drawn = block_at_cursor_lem g.board g.next_type 0 (origin + 3) origin (g.next_type + 1) in
    record {
      type = h;
      orientation = omega arith;
      next_type = omega arith;
      range = (omega arith, omega arith);
      colored = λ p c. drawn p ∙ rw c;
      fits =
          ap (λ b. block_fits_at b g.next_type 0 (origin + 3) origin)
            ((λ i p. if covers g.next_type 0 (origin + 3) origin p then black else drawn p i)
              ∙ painted_rest g.board g.next_type 0 (origin + 3) origin (g.next_type + 1) f)
          ∙ f;
    }

new_block-IsPlaying : (ticks : ℕ) (g : Game) → g.next_type < 7 → IsPlaying ((new_block ticks g).1)
unfolding new_block IsPlaying
new_block-IsPlaying ticks g h =
    elim (Bool-cases (block_fits_at g.board g.next_type 0 (origin + 3) origin)) [
      | inr off ↦ rw off (inl refl)
      | inl fits ↦ rw fits (inr (begun-IsPlaced ticks g h fits))
    ]

attempt-IsPlaced :
    (g : Game) (orientation x y : ℕ)
    → IsPlaced g
    → orientation < 4
    → x < 2 ^ 32
    → y < 2 ^ 32
    → IsPlaced ((attempt g orientation x y).1)
attempt-IsPlaced g orientation x y w o hx hy =
    elim (Bool-cases (block_fits_at (rest g) g.type orientation x y)) [
      | inl e ↦ rw e ((placed-IsPlaced g orientation x y w e o hx hy).0)
      | inr e ↦ rw e w
    ]

next_block_lem :
    (ticks : ℕ) (g : Game)
    → g.next_type < 7
    → (g' : Game) × (next_block ticks g ≡ some g') × IsPlaying g'
unfolding next_block
next_block_lem ticks g h =
    let (count, b', e, kept, cells) = erase_rows_lem g.board in
    let cleared = record g { board = b' } in
    ((new_block ticks cleared).1, rw (next_block, e), new_block-IsPlaying ticks cleared h)

do_space_lem :
    (ticks : ℕ) (g : Game)
    → IsPlaced g
    → (g' : Game) × (do_space ticks g ≡ some (true, g')) × IsPlaying g'
unfolding do_space
do_space_lem ticks g w =
    let (rows, g1, e, fallen, stop) = drop_down_lem g w in
    let (g2, e2, playing) = next_block_lem ticks g1 fallen.well.next_type in
    (g2, rw (do_space, e, e2), playing)

-- The piece is moved, and the game goes on.
moved_on :
    (g : Game) (orientation x y : ℕ) (r : Bool × Game)
    → IsPlaced g
    → orientation < 4
    → x < 2 ^ 32
    → y < 2 ^ 32
    → r ≡ attempt g orientation x y
    → (moved : Bool) × (g' : Game) × (r ≡ (moved, g')) × IsPlaced g'
moved_on g orientation x y r w o hx hy e =
    (r.0, r.1, refl, rw e (attempt-IsPlaced g orientation x y w o hx hy))

-- The variables of the game after the program's start and some keys and timer events.
pub data Reached : Game → Type 0 where
  started : (ticks : ℕ) → Reached (start ticks)
  key :
      (ticks : ℕ) (k : Key) {g g' : Game} {moved : Bool}
      → Reached g
      → do_keydown ticks k g ≡ some (moved, g')
      → Reached g'
  timer : (ticks : ℕ) {g g' : Game} → Reached g → do_timer ticks g ≡ some g' → Reached g'

unless_over {ℓ} : {A : Type ℓ} (over : Bool) (x y : A) → over ≡ false → (if over then x else y) ≡ y
unless_over true x y e = cc e
unless_over false x y e = refl

abbrev Result : ℕ → Key → Game → Type 0
Result ticks k g =
    (moved : Bool) × (g' : Game) × (do_keydown ticks k g ≡ some (moved, g')) × IsPlaying g'

keydown_over : (ticks : ℕ) (k : Key) (g : Game) → g.game_over ≡ true → Result ticks k g
unfolding do_keydown IsPlaying
keydown_over ticks escape g e = (false, g, refl, inl e)
keydown_over ticks down g e = (false, g, rw e, inl e)
keydown_over ticks up g e = (false, g, rw e, inl e)
keydown_over ticks left g e = (false, g, rw e, inl e)
keydown_over ticks right g e = (false, g, rw e, inl e)
keydown_over ticks space g e = (false, g, rw e, inl e)
keydown_over ticks other g e = (false, g, refl, inl e)

keydown_placed :
    (ticks : ℕ) (k : Key) (g : Game) → g.game_over ≡ false → IsPlaced g → Result ticks k g
unfolding do_keydown IsPlaying
keydown_placed ticks escape g e w = (false, g, refl, inr w)
keydown_placed ticks down g e w =
    let m = moves_lem g w in
    let w' =
      moved_on g g.orientation g.x (add_int g.y one) (move_down g) w w.orientation w.range.0
        (omega arith) m.0 in
    (w'.0, w'.1, unless_over g.game_over _ _ e ∙ ap some w'.2, inr w'.3)
keydown_placed ticks up g e w =
    let m = moves_lem g w in
    let w' =
      moved_on g ((g.orientation + 1) % 4) g.x g.y (do_rotate g) w (omega arith) w.range.0 w.range.1
        m.3 in
    (w'.0, w'.1, unless_over g.game_over _ _ e ∙ ap some w'.2, inr w'.3)
keydown_placed ticks left g e w =
    let m = moves_lem g w in
    let w' =
      moved_on g g.orientation (sub_int g.x one) g.y (move_left g) w w.orientation (omega arith)
        w.range.1 m.1 in
    (w'.0, w'.1, unless_over g.game_over _ _ e ∙ ap some w'.2, inr w'.3)
keydown_placed ticks right g e w =
    let m = moves_lem g w in
    let w' =
      moved_on g g.orientation (add_int g.x one) g.y (move_right g) w w.orientation (omega arith)
        w.range.1 m.2 in
    (w'.0, w'.1, unless_over g.game_over _ _ e ∙ ap some w'.2, inr w'.3)
keydown_placed ticks space g e w =
    let (g', runs, playing) = do_space_lem ticks g w in
    (true, g', unless_over g.game_over _ _ e ∙ runs, playing)
keydown_placed ticks other g e w = (false, g, refl, inr w)

keydown_lem : (ticks : ℕ) (k : Key) (g : Game) → IsPlaying g → Result ticks k g
unfolding IsPlaying
keydown_lem ticks k g (inl e) = keydown_over ticks k g e
keydown_lem ticks k g (inr w) = elim (Bool-cases g.game_over) [
  | inl e ↦ keydown_over ticks k g e
  | inr e ↦ keydown_placed ticks k g e w
]

timer_lem :
    (ticks : ℕ) (g : Game) → IsPlaying g → (g' : Game) × (do_timer ticks g ≡ some g') × IsPlaying g'
unfolding do_timer IsPlaying
timer_lem ticks g (inl e) = (g, rw e, inl e)
timer_lem ticks g (inr w) = elim (Bool-cases g.game_over) [
  | inl e ↦ (g, rw e, inl e)
  | inr e ↦
      let (next, runs, playing) = after_move (move_down g) (
        moved_on g g.orientation g.x (add_int g.y one) (move_down g) w w.orientation w.range.0
          (omega arith) (moves_lem g w).0) in
      (next, unless_over g.game_over _ _ e ∙ runs, playing)
]
  where
    after_move :
        (r : Bool × Game)
        → ((moved : Bool) × (g' : Game) × (r ≡ (moved, g')) × IsPlaced g')
        → (next : Game) × (elim r.0 [ true ↦ some r.1 | false ↦ next_block ticks r.1 ] ≡ some next)
          × IsPlaying next
    after_move r (true, g', e, w') =
        (g', ap (λ q. elim q.0 [ true ↦ some q.1 | false ↦ next_block ticks q.1 ]) e, inr w')
    after_move r (false, g', e, w') =
        let (next, runs, playing) = next_block_lem ticks g' w'.next_type in
        (
          next,
          ap (λ q. elim q.0 [ true ↦ some q.1 | false ↦ next_block ticks q.1 ]) e ∙ runs,
          playing,
        )

value_or {ℓ} : {A : Type ℓ} → A → Option A → A
value_or a none = a
value_or a (some b) = b

same_result {ℓ} : {A : Type ℓ} (o : Option A) (a b : A) → o ≡ some a → o ≡ some b → a ≡ b
unfolding value_or
same_result o a b e e' = ap (value_or a) (sym e ∙ e')

start_lem : (ticks : ℕ) → IsPlaying (start ticks)
unfolding start
start_lem ticks = new_block-IsPlaying ticks initial (omega arith)

playing : (g : Game) → Reached g → IsPlaying g
playing g (started ticks) = start_lem ticks
playing g (key ticks k {g = h} {moved = m} r e) =
    let (moved, g', runs, on) = keydown_lem ticks k h (playing h r) in
    subst IsPlaying (ap (λ q. q.1) (same_result _ (moved, g') (m, g) runs e)) on
playing g (timer ticks {g = h} r e) =
    let (g', runs, on) = timer_lem ticks h (playing h r) in
    subst IsPlaying (same_result _ g' g runs e) on

-- In every game that the program's start, keys and timer events lead to, the game is over, or the
-- piece is on the board in its colour on blocks that are black without it. Each key and each timer
-- event then ends with a result.
pub Reached-IsPlaying :
    (g : Game) (ticks : ℕ) (k : Key)
    → Reached g
    → IsPlaying g
      × ((moved : Bool) × (g' : Game) × (do_keydown ticks k g ≡ some (moved, g')))
      × ((g' : Game) × (do_timer ticks g ≡ some g'))
Reached-IsPlaying g ticks k r =
    let on = playing g r in
    let (moved, g', runs, on') = keydown_lem ticks k g on in
    let (g'', runs', on'') = timer_lem ticks g on in (on, (moved, g', runs), (g'', runs'))
