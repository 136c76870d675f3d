-- ===== src/MessageQueue/Windows.antt =====
-- The timers of a window in kernel/queue.cpp, by their numbers.
use ring3k.Prelude.{
  ℕ, ◌+◌, ◌≤◌, ◌≡◌, ◌⊎◌, refl, ap, sym, subst, inl, inr, Bool, true, false, ◌&&◌, leb, ◌==◌, leb→le,
  Bool-cases, none, some, Option-cases, List, [], ◌∷◌, arith, ≡→==,
}
use ring3k.MessageQueue.{
  Msg, Timer, Queue, is_timer, take_timer, timer_add, pick, reset, timer_message, new_timer,
  start_timer, set_timer, kill_timer, get_timer_message,
}
use ring3k.MessageQueue.Count.{
  one_if, count, count-timer_add, IsTaken, Taken, take_timer-Taken, take_timer-none, pick-Taken,
}

-- A window has at most one timer of each number.
unfoldable pub IsUnique : Queue → Type 0
IsUnique q = (window id : ℕ) → count (is_timer window id) q.timer_list ≤ 1

-- A test that no timer with the name passes.
unfoldable pub IsOther : ℕ → ℕ → (Timer → Bool) → Type 0
IsOther window id p = (t : Timer) → is_timer window id t ≡ true → p t ≡ false

both : (a b c d : ℕ) (t : Timer) → is_timer a b t ≡ true → is_timer c d t ≡ true → (a ≡ c) × (b ≡ d)
both a b c d t h h' = ground (arith, h, h')

-- A timer of the window with the number, the period and the procedure.
abbrev pub is_set : ℕ → ℕ → ℕ → ℕ → Timer → Bool
is_set window id elapse proc t =
    is_timer window id t && ((t.period == elapse) && (t.lparam == proc))

one_if_and : (a b : Bool) → one_if (a && b) ≤ one_if a
one_if_and true true = omega arith
one_if_and true false = omega arith
one_if_and false b = omega arith

count-is_set :
    (window id elapse proc : ℕ) (list : List Timer)
    → count (is_set window id elapse proc) list ≤ count (is_timer window id) list
unfolding count
count-is_set window id elapse proc [] = omega arith
count-is_set window id elapse proc (t ∷ rest) =
    omega (arith, count-is_set window id elapse proc rest, one_if_and (is_timer window id t) _)

-- The timer that was taken, and the others.
taken :
    (q : Queue) (window id : ℕ) (t : Timer) (rest : List Timer)
    → take_timer window id q.timer_list ≡ some (t, rest)
    → IsTaken q.timer_list t rest (is_timer window id)
unfolding Taken
taken q window id t rest e =
    subst (λ f. Taken q.timer_list f (is_timer window id)) e
      (take_timer-Taken window id q.timer_list)

-- The timers that are left when the one with the name was taken.
pub record IsLeft (q : Queue) (window id : ℕ) (rest : List Timer) : Type 0 where
  pub none_left : count (is_timer window id) rest ≡ 0
  pub others : (p : Timer → Bool) → IsOther window id p → count p rest ≡ count p q.timer_list
  pub at_most : (w i : ℕ) → count (is_timer w i) rest ≤ 1

same_name :
    (now w i : ℕ) (t : Timer) → one_if (is_timer w i (reset now t)) ≡ one_if (is_timer w i t)
unfolding reset
same_name now w i t = refl

module _ (q : Queue) (unique : IsUnique q) where
  none-IsLeft :
      (window id : ℕ) → take_timer window id q.timer_list ≡ none → IsLeft q window id q.timer_list
  unfolding IsUnique
  none-IsLeft window id e = record {
    none_left = take_timer-none window id q.timer_list e;
    others = λ p h. refl;
    at_most = unique;
  }

  some-IsLeft :
      (window id : ℕ) (t : Timer) (rest : List Timer)
      → take_timer window id q.timer_list ≡ some (t, rest)
      → IsLeft q window id rest
  unfolding IsUnique IsOther
  some-IsLeft window id t rest e =
      let it = taken q window id t rest e in
      record {
        none_left =
            omega (arith, it.same (is_timer window id), ap one_if it.passes, unique window id);
        others = λ p h. omega (arith, it.same p, ap one_if (h t it.passes));
        at_most = λ w i. omega (arith, it.same (is_timer w i), unique w i);
      }

  -- `kill_timer` tells whether the window has a timer of that number, and takes away this timer and
  -- no other.
  pub kill_timer_lem :
      (window id : ℕ)
      → let r = kill_timer q window id in
        (one_if r.0 ≡ count (is_timer window id) q.timer_list) × IsLeft q window id r.1.timer_list
  unfolding IsUnique kill_timer
  kill_timer_lem window id = elim (Option-cases (take_timer window id q.timer_list)) [
    | inl e ↦ rw e (sym (take_timer-none window id q.timer_list e), none-IsLeft window id e)
    | inr ((t, rest), e) ↦
        let it = taken q window id t rest e in
        let left = some-IsLeft window id t rest e in
        rw e
          (omega (arith, it.same (is_timer window id), ap one_if it.passes, left.none_left), left)
  ]

  -- A timer comes to those that are left.
  add_to :
      (window id : ℕ) (t : Timer) (rest : List Timer)
      → is_timer window id t ≡ true
      → IsLeft q window id rest
      → (w i : ℕ) → count (is_timer w i) (timer_add t rest) ≤ 1
  add_to window id t rest own left w i = elim (Bool-cases (is_timer w i t)) [
    | inl e ↦
        let (same_w, same_i) = both w i window id t e own in
        let gone : count (is_timer w i) rest ≡ 0 = rw (same_w, same_i) left.none_left in
        omega (arith, count-timer_add (is_timer w i) t rest, ap one_if e, gone)
    | inr e ↦ omega (arith, count-timer_add (is_timer w i) t rest, ap one_if e, left.at_most w i)
  ]

  set_from :
      (window id elapse proc : ℕ) (t : Timer) (rest : List Timer)
      → is_timer window id t ≡ true
      → IsLeft q window id rest
      → let q' = start_timer q elapse proc (some (t, rest)) in
        IsUnique q'
        × (count (is_set window id elapse proc) q'.timer_list ≡ 1)
        × ((p : Timer → Bool) → IsOther window id p → count p q'.timer_list ≡ count p q.timer_list)
  unfolding IsUnique IsOther
  set_from window id elapse proc t rest own left =
      let t' = record t { period = elapse; lparam = proc } in
      let is_it : is_set window id elapse proc t' ≡ true =
        rw (own, ≡→== elapse elapse refl, ≡→== proc proc refl) in
      (
        add_to window id t' rest own left,
        omega (
          arith,
          count-timer_add (is_set window id elapse proc) t' rest,
          ap one_if is_it,
          count-is_set window id elapse proc rest,
          left.none_left,
        ),
        λ p h. omega (arith, count-timer_add p t' rest, ap one_if (h t' own), left.others p h),
      )

  -- `set_timer` leaves the window with just one timer of that number, with the period and the
  -- procedure asked for, and all other timers as they are.
  pub set_timer_lem :
      (window id elapse proc : ℕ)
      → let q' = (set_timer q window id elapse proc).1 in
        IsUnique q'
        × (count (is_set window id elapse proc) q'.timer_list ≡ 1)
        × ((p : Timer → Bool) → IsOther window id p → count p q'.timer_list ≡ count p q.timer_list)
  unfolding set_timer
  set_timer_lem window id elapse proc = elim (Option-cases (take_timer window id q.timer_list)) [
    | inl e ↦
        let own : is_timer window id (new_timer window id) ≡ true =
          rw (≡→== id id refl, ≡→== window window refl) in
        rw e (
          set_from window id elapse proc (new_timer window id) q.timer_list own
            (none-IsLeft window id e))
    | inr ((t, rest), e) ↦ rw e (
        set_from window id elapse proc t rest (taken q window id t rest e).passes
          (some-IsLeft window id t rest e))
  ]

  -- `get_timer_message` without a message changes nothing. Otherwise the message is that of a timer
  -- that has expired; this timer now expires after its period from now, all others are as they were,
  -- and a window still has at most one timer of each number.
  pub get_timer_message_lem :
      (now tick window : ℕ) (msg : Msg)
      → let r = get_timer_message now tick q window msg in
        ((r.0 ≡ false) × (r.1 ≡ msg) × (r.2 ≡ q))
        ⊎ ((t : Timer) × (r.0 ≡ true)
            × (r.1 ≡ timer_message tick t)
            × (t.expiry ≤ now)
            × ((p : Timer → Bool)
                → count p r.2.timer_list + one_if (p t)
                  ≡ count p q.timer_list + one_if (p (reset now t)))
            × IsUnique r.2)
  unfolding get_timer_message IsUnique Taken
  get_timer_message_lem now tick window msg = elim (Option-cases (pick now window q.timer_list)) [
    | inl e ↦ rw e (inl (refl, refl, refl))
    | inr ((t, rest), e) ↦
        let it =
          subst (λ f. Taken q.timer_list f (λ x. leb x.expiry now)) e
            (pick-Taken now window q.timer_list) in
        rw e (
          inr (
            t,
            refl,
            refl,
            leb→le t.expiry now it.passes,
            λ p. omega (arith, count-timer_add p (reset now t) rest, it.same p),
            λ w i. omega (
              arith,
              count-timer_add (is_timer w i) (reset now t) rest,
              it.same (is_timer w i),
              same_name now w i t,
              unique w i,
            ),
          ))
  ]
