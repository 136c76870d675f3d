-- ===== src/Timers.antt =====
-- kernel/timer.cpp: the queue of timeouts. Times are LARGE_INTEGERs, 64-bit numbers in two's
-- complement. Timeouts are numbers; the clock is an argument.
pub mod Queue
pub mod Expiry
mod Tests
use package.ring3k.Prelude.{
  ℕ, zero, suc, ◌+◌, ◌-◌, ◌%◌, ◌^◌, Bool, true, false, not, ◌||◌, ltb, leb, ◌==◌, if◌then◌else◌,
  Option, none, some, List, [], ◌∷◌, length,
}
use package.ring3k.Prelude.Checked.{Checked, returns, aborts, assert, ◌>>=◌, ◌>>◌}

abbrev pub large_mod : ℕ
large_mod = 2 ^ 64

-- The first number that is negative as a LARGE_INTEGER.
abbrev pub negative : ℕ
negative = 2 ^ 63

-- `queue` is `g_timeouts`, and `expires` the field of each timeout.
pub record Timers : Type 0 where
  pub queue : List ℕ
  pub expires : ℕ → ℕ

pub is_linked : List ℕ → ℕ → Bool
is_linked [] t = false
is_linked (x ∷ xs) t = (x == t) || is_linked xs t

-- The queue behind its first element, in `queue_is_valid`.
pub valid_after : Timers → ℕ → List ℕ → Bool
valid_after s prev [] = true
valid_after s prev (x ∷ xs) =
    let rest = valid_after s x xs in if ltb (s.expires x) (s.expires prev) then false else rest

pub list_is_valid : Timers → List ℕ → Bool
list_is_valid s [] = true
list_is_valid s (x ∷ xs) = valid_after s x xs

pub queue_is_valid : Timers → Bool
queue_is_valid s = list_is_valid s s.queue

-- `add`: in front of the first timeout that expires later.
pub insert : Timers → ℕ → List ℕ → List ℕ
insert s t [] = t ∷ []
insert s t (x ∷ xs) =
    let rest = insert s t xs in if ltb (s.expires t) (s.expires x) then t ∷ x ∷ xs else x ∷ rest

pub add : Timers → ℕ → Checked Timers
unfolding insert is_linked
add s t = do assert (not (is_linked s.queue t)); returns (record s { queue = insert s t s.queue })

pub unlink : ℕ → List ℕ → List ℕ
unlink t [] = []
unlink t (x ∷ xs) = if x == t then xs else x ∷ unlink t xs

-- `remove`.
pub remove : Timers → ℕ → Timers
unfolding unlink is_linked
remove s t = if is_linked s.queue t then record s { queue = unlink t s.queue } else s

-- The time when a timeout expires that is set to `t` at `now`.
pub deadline : ℕ → ℕ → ℕ
deadline now t =
    let time = if (t == 0) || leb negative t then (now + large_mod - t) % large_mod else t in
    if leb negative time then negative - 1 else time

abbrev pub put : (ℕ → ℕ) → ℕ → ℕ → ℕ → ℕ
put f p v q = if p == q then v else f q

abbrev pub is_empty : List ℕ → Bool
is_empty [] = true
is_empty (x ∷ xs) = false

-- `set_timeout`; a null pointer is `none`.
unfoldable pub set_timeout : ℕ → Timers → ℕ → Option ℕ → Checked Timers
unfolding remove
set_timeout now s t none = returns (record (remove s t) { expires = put s.expires t 0 })
set_timeout now s t (some time) = do
  s' ← add (record s { expires = put s.expires t (deadline now time) }) t
  assert (not (is_empty s'.queue))
  assert (queue_is_valid s')
  returns s'

-- The loop of `check_timers`: it runs out of rounds, or returns the time left and the new state.
-- `signal` is the virtual `signal_timeout`.
pub check_loop : ℕ → (ℕ → Timers → Timers) → ℕ → Timers → Option (ℕ × Timers)
check_loop zero signal now s = none
check_loop (suc fuel) signal now s = elim s.queue [
  | [] ↦ some (0, s)
  | t ∷ ts ↦
      let rest = check_loop fuel signal now (signal t (remove s t)) in
      if ltb now (s.expires t) then some (s.expires t - now, s) else rest
]

abbrev pub with_timers : Option (ℕ × Timers) → Option (Bool × ℕ × Timers)
with_timers none = none
with_timers (some r) = some (true, r.0, r.1)

-- `check_timers`; the result is false if there are no timeouts. Each round takes one timeout from
-- the queue.
pub check_timers : (ℕ → Timers → Timers) → ℕ → Timers → Option (Bool × ℕ × Timers)
check_timers signal now s =
    if is_empty s.queue
    then some (false, 0, s)
    else with_timers (check_loop (length s.queue + 1) signal now s)
