-- ===== src/Minitris/Tests.antt =====
-- programs/minitris/minitris.c on examples.
use ring3k.Prelude.{
  ℕ, suc, ◌+◌, ◌-◌, ◌%◌, ◌<◌, ◌≡◌, refl, Bool, true, false, ltb, leb, if◌then◌else◌, some, length,
  get_elem?, arith,
}
use ring3k.Prelude.Signed.{origin, add_int, sub_int}
use ring3k.Minitris.{
  one, Board, block_fits_at, Game, move_down, move_left, move_right, do_rotate, drop_down,
  drop_limit, erase_rows, space, do_keydown, do_timer, initial, start,
}
use ring3k.Minitris.Rows.{cell}
use ring3k.Minitris.Shift.{kept, block_of}
use ring3k.Minitris.Moves.{IsPlaced, attempt, moves_lem}
use ring3k.Minitris.Drop.{IsFallen, drop_down_lem}
use ring3k.Minitris.Erase.{erase_rows_lem}
use ring3k.Minitris.Play.{IsPlaying, begun, begun-IsPlaced, started, Reached-IsPlaying}

-- The game with its first piece.
abbrev first : Game
first = begun 0 initial

first_fits : block_fits_at initial.board 0 0 (origin + 3) origin ≡ true
unfolding block_fits_at
first_fits = refl

first-IsPlaced : IsPlaced first
first-IsPlaced = begun-IsPlaced 0 initial (omega arith) first_fits

moves_lem_example :
    (move_down first ≡ attempt first first.orientation first.x (add_int first.y one))
    × (move_left first ≡ attempt first first.orientation (sub_int first.x one) first.y)
    × (move_right first ≡ attempt first first.orientation (add_int first.x one) first.y)
    × (do_rotate first ≡ attempt first ((first.orientation + 1) % 4) first.x first.y)
moves_lem_example = moves_lem first first-IsPlaced

drop_down_lem_example :
    (rows : ℕ) × (g' : Game) × (drop_down drop_limit 0 first ≡ some (rows, g'))
    × IsFallen first rows g'
    × (move_down g' ≡ (false, g'))
drop_down_lem_example = drop_down_lem first first-IsPlaced

-- A board whose top row has blocks and whose two lowest rows are full.
abbrev two_full : Board
two_full p = if ltb p 4 then 3 else if leb 180 p then 2 else 0

erase_rows_lem_example :
    (count : ℕ) × (b' : Board) × (erase_rows two_full ≡ some (origin + count, b'))
    × (count + length (kept two_full 20) ≡ 20)
    × ((r i : ℕ)
        → r < 20
        → i < 10
        → cell b' r i ≡ (
            if leb count (suc r)
            then block_of two_full (get_elem? (kept two_full 20) (19 - r)) i
            else cell two_full r i))
erase_rows_lem_example = erase_rows_lem two_full

Reached-IsPlaying_example :
    IsPlaying (start 7)
    × ((moved : Bool) × (g' : Game) × (do_keydown 5 space (start 7) ≡ some (moved, g')))
    × ((g' : Game) × (do_timer 5 (start 7) ≡ some g'))
Reached-IsPlaying_example = Reached-IsPlaying (start 7) 5 space (started 7)
