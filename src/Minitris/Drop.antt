-- ===== src/Minitris/Drop.antt =====
-- `drop_down` of programs/minitris/minitris.c.
use ring3k.Prelude.{
  ℕ, zero, suc, ◌+◌, ◌≤◌, ◌<◌, ◌≡◌, refl, sym, ap, ◌∙◌, inl, inr, Bool, true, false, if◌then◌else◌,
  Bool-cases, some, arith,
}
use ring3k.Prelude.Signed.{origin, add_int}
use ring3k.Minitris.{one, block_fits_at, Game, move_down, drop_down, drop_limit}
use ring3k.Minitris.Board.{covers, OnBoard, block_fits_at-OnBoard}
use ring3k.Minitris.Moves.{rest, placed, IsPlaced, restored, placed-IsPlaced, moves_lem}

-- The piece fits with its area `k` rows lower.
abbrev pub fits_below : Game → ℕ → Bool
fits_below g k = block_fits_at (rest g) g.type g.orientation g.x (g.y + k)

-- `g'` is `g` with the piece as many rows lower as it can fall.
pub record IsFallen (g : Game) (rows : ℕ) (g' : Game) : Type 0 where
  pub well : IsPlaced g'
  pub kept : rest g' ≡ rest g
  pub is : g' ≡ placed g g.orientation g.x (g.y + rows)
  pub free : (k : ℕ) → k ≤ rows → fits_below g k ≡ true
  pub stop : fits_below g (suc rows) ≡ false

on_board : (g : Game) → IsPlaced g → OnBoard g.y
on_board g w =
    block_fits_at-OnBoard (rest g) g.type g.orientation g.x g.y w.type w.orientation w.range.1
      w.fits

next_row : (g : Game) → IsPlaced g → add_int g.y one ≡ g.y + 1
next_row g w = let on = on_board g w in omega (arith, on)

plus_zero : (y : ℕ) → y + 0 ≡ y
plus_zero y = omega arith

fits_here : (g : Game) → IsPlaced g → fits_below g 0 ≡ true
fits_here g w = rw (plus_zero g.y) w.fits

stays : (g : Game) → IsPlaced g → fits_below g 1 ≡ false → IsFallen g 0 g
stays g w off = record {
  well = w;
  kept = refl;
  is = sym (restored g w) ∙ ap (placed g g.orientation g.x) (sym (plus_zero g.y));
  free = λ k h. let zero_k : k ≡ 0 = omega arith in rw zero_k (fits_here g w);
  stop = off;
}

placed_again :
    (g : Game) (o x y o' x' y' : ℕ)
    → rest (placed g o x y) ≡ rest g
    → placed (placed g o x y) o' x' y' ≡ placed g o' x' y'
placed_again g o x y o' x' y' e =
    ap
      (λ r. record g {
        orientation = o';
        x = x';
        y = y';
        board = λ p. if covers g.type o' x' y' p then g.color else r p;
      })
      e

-- Below the next row, the same places are free.
next_below :
    (g : Game) (k : ℕ)
    → rest (placed g g.orientation g.x (g.y + 1)) ≡ rest g
    → fits_below (placed g g.orientation g.x (g.y + 1)) k ≡ fits_below g (suc k)
next_below g k e =
    let shift : g.y + 1 + k ≡ g.y + suc k = omega arith in
    ap (λ b. block_fits_at b g.type g.orientation g.x (g.y + 1 + k)) e
    ∙ ap (block_fits_at (rest g) g.type g.orientation g.x) shift

falls :
    (g : Game) (rows : ℕ) (g' : Game)
    → rest (placed g g.orientation g.x (g.y + 1)) ≡ rest g
    → fits_below g 0 ≡ true
    → IsFallen (placed g g.orientation g.x (g.y + 1)) rows g'
    → IsFallen g (suc rows) g'
falls g rows g' same here f = record {
  well = f.well;
  kept = f.kept ∙ same;
  is =
      let shift : g.y + 1 + rows ≡ g.y + suc rows = omega arith in
      f.is
      ∙ placed_again g _ _ _ g.orientation g.x (g.y + 1 + rows) same
      ∙ ap (placed g g.orientation g.x) shift;
  free = λ k h. free_below k h;
  stop = sym (next_below g (suc rows) same) ∙ f.stop;
}
  where
    free_below : (k : ℕ) → k ≤ suc rows → fits_below g k ≡ true
    free_below zero h = here
    free_below (suc k) h = sym (next_below g k same) ∙ f.free k (omega (arith, h))

stop_lem : (g : Game) → IsPlaced g → fits_below g 1 ≡ false → move_down g ≡ (false, g)
stop_lem g w off = (moves_lem g w).0 ∙ rw (next_row g w, off)

down_lem :
    (g : Game)
    → IsPlaced g
    → fits_below g 1 ≡ true
    → move_down g ≡ (true, placed g g.orientation g.x (g.y + 1))
down_lem g w on = (moves_lem g w).0 ∙ rw (next_row g w, on)

one_more :
    (n rows : ℕ) (g g1 : Game)
    → move_down g ≡ (true, g1)
    → drop_down (suc n) rows g ≡ drop_down n (rows + 1) g1
unfolding drop_down
one_more n rows g g1 e = rw (drop_down, e) (ap (λ r. drop_down n (rows + 1) r.1) e)

no_more :
    (n rows : ℕ) (g : Game)
    → move_down g ≡ (false, g)
    → drop_down (suc n) rows g ≡ some (rows + 0, g)
unfolding drop_down
no_more n rows g e = rw (drop_down, e, plus_zero rows) (ap (λ r. some (rows, r.1)) e)

drop_step :
    (n rows : ℕ) (g : Game)
    → IsPlaced g
    → origin + 20 < g.y + n
    → (k : ℕ) × (g' : Game) × (drop_down n rows g ≡ some (rows + k, g')) × IsFallen g k g'
drop_step zero rows g w h = let on = on_board g w in absurd (omega (arith, on, h))
drop_step (suc n) rows g w h = elim (Bool-cases (fits_below g 1)) [
  | inr off ↦ (0, g, no_more n rows g (stop_lem g w off), stays g w off)
  | inl on ↦
      let g1 = placed g g.orientation g.x (g.y + 1) in
      let small = on_board g w in
      let (w1, same) =
        placed-IsPlaced g g.orientation g.x (g.y + 1) w on w.orientation w.range.0
          (omega (arith, small)) in
      let (k, g', e, f) = drop_step n (rows + 1) g1 w1 (omega (arith, h)) in
      let shift : rows + 1 + k ≡ rows + suc k = omega arith in
      (
        suc k,
        g',
        one_more n rows g g1 (down_lem g w on) ∙ e ∙ ap (λ m. some (m, g')) shift,
        falls g k g' same (fits_here g w) f,
      )
]

-- `drop_down` on a placed piece ends within the steps that are allowed to it. It moves the piece
-- down as many rows as it returns, as far as it can: each of these places is free, the next is not.
-- The board without the piece stays as it was, and one more `move_down` fails.
pub drop_down_lem :
    (g : Game)
    → IsPlaced g
    → (rows : ℕ) × (g' : Game) × (drop_down drop_limit 0 g ≡ some (rows, g'))
      × IsFallen g rows g'
      × (move_down g' ≡ (false, g'))
drop_down_lem g w =
    let on = on_board g w in
    let (rows, g', e, f) = drop_step drop_limit 0 g w (omega (arith, on)) in
    let from_zero : 0 + rows ≡ rows = omega arith in
    (rows, g', e ∙ ap (λ m. some (m, g')) from_zero, f, stop_lem g' f.well (at_stop rows g' f))
  where
    at_stop : (rows : ℕ) (g' : Game) → IsFallen g rows g' → fits_below g' 1 ≡ false
    at_stop rows g' f =
        let next : g.y + rows + 1 ≡ g.y + suc rows = omega arith in
        ap (λ b. block_fits_at b g'.type g'.orientation g'.x (g'.y + 1)) f.kept
        ∙ ap (λ q. block_fits_at (rest g) q.type q.orientation q.x (q.y + 1)) f.is
        ∙ ap (block_fits_at (rest g) g.type g.orientation g.x) next
        ∙ f.stop
