-- ===== src/MessageQueue/Count.antt =====
-- Which timers the lists of kernel/queue.cpp hold, whatever their order.
use ring3k.Prelude.{
  ℕ, ◌+◌, ◌≡◌, refl, inl, inr, Bool, true, false, ◌||◌, ltb, leb, ◌==◌, Bool-cases, Option, none,
  some, List, [], ◌∷◌, arith,
}
use ring3k.MessageQueue.{Timer, is_timer, beside, take_timer, timer_add, pick_behind, pick}

abbrev pub one_if : Bool → ℕ
one_if true = 1
one_if false = 0

-- How many timers pass the test.
unfoldable pub count : (Timer → Bool) → List Timer → ℕ
count p [] = 0
count p (t ∷ rest) = one_if (p t) + count p rest

pub count-cons :
    (p : Timer → Bool) (t : Timer) (rest : List Timer)
    → count p (t ∷ rest) ≡ one_if (p t) + count p rest
unfolding count
count-cons p t rest = refl

-- Adding a timer adds just that timer.
pub count-timer_add :
    (p : Timer → Bool) (timer : Timer) (list : List Timer)
    → count p (timer_add timer list) ≡ one_if (p timer) + count p list
unfolding count timer_add
count-timer_add p timer [] = refl
count-timer_add p timer (t ∷ []) = elim (Bool-cases (leb timer.expiry t.expiry)) [
  | inl e ↦ rw e
  | inr e ↦ rw e
]
count-timer_add p timer (t ∷ u ∷ rest) = elim (Bool-cases (leb timer.expiry t.expiry)) [
  | inl e ↦ rw e
  | inr e ↦ rw e (omega (arith, count-timer_add p timer (u ∷ rest)))
]

-- The timer that was found passes `good`, and it with the rest are the timers of the list.
pub record IsTaken (list : List Timer) (t : Timer) (rest : List Timer) (good : Timer → Bool)
    : Type 0 where
  pub passes : good t ≡ true
  pub same : (p : Timer → Bool) → count p list ≡ one_if (p t) + count p rest

-- What a search found, if it found anything.
unfoldable pub Taken : List Timer → Option (Timer × List Timer) → (Timer → Bool) → Type 0
Taken list none good = Unit {0}
Taken list (some (t, rest)) good = IsTaken list t rest good

beside-Taken :
    (t : Timer) (list : List Timer) (found : Option (Timer × List Timer)) (good : Timer → Bool)
    → Taken list found good
    → Taken (t ∷ list) (beside t found) good
unfolding Taken count
beside-Taken t list none good h = tt
beside-Taken t list (some (x, rest)) good h = record {
  passes = h.passes;
  same = λ p. omega (arith, h.same p);
}

pub take_timer-Taken :
    (window id : ℕ) (list : List Timer)
    → Taken list (take_timer window id list) (is_timer window id)
unfolding take_timer Taken count
take_timer-Taken window id [] = tt
take_timer-Taken window id (t ∷ rest) = elim (Bool-cases (is_timer window id t)) [
  | inl e ↦ rw e (record { passes = e; same = λ p. refl })
  | inr e ↦ rw e (
      beside-Taken t rest (take_timer window id rest) (is_timer window id)
        (take_timer-Taken window id rest))
]

beside-none :
    (t : Timer) (found : Option (Timer × List Timer)) → beside t found ≡ none → found ≡ none
beside-none t none h = refl
beside-none t (some (x, rest)) h = cc h

-- If no timer was found, there is none with the name.
pub take_timer-none :
    (window id : ℕ) (list : List Timer)
    → take_timer window id list ≡ none
    → count (is_timer window id) list ≡ 0
unfolding take_timer count
take_timer-none window id [] h = refl
take_timer-none window id (t ∷ rest) h = elim (Bool-cases (is_timer window id t)) [
  | inl e ↦ cc (rw e at h)
  | inr e ↦ rw e (
      omega (
        arith,
        take_timer-none window id rest (beside-none t (take_timer window id rest) (rw e at h)),
      ))
]

pick_behind-Taken :
    (t : Timer) (rest : List Timer) (later : Option (Timer × List Timer)) (good : Timer → Bool)
    → good t ≡ true
    → Taken rest later good
    → Taken (t ∷ rest) (pick_behind t rest later) good
unfolding Taken count
pick_behind-Taken t [] later good own h = record { passes = own; same = λ p. refl }
pick_behind-Taken t (u ∷ rest) later good own h = beside-Taken t (u ∷ rest) later good h

-- A timer that `get_timer_message` takes has expired.
pub pick-Taken :
    (now window : ℕ) (list : List Timer) → Taken list (pick now window list) (λ t. leb t.expiry now)
unfolding pick Taken count
pick-Taken now window [] = tt
pick-Taken now window (t ∷ rest) = elim (Bool-cases (ltb now t.expiry)) [
  | inl e ↦ rw e tt
  | inr e ↦
      let due : leb t.expiry now ≡ true = ground arith in
      elim (Bool-cases ((window == 0) || (t.hwnd == window))) [
        | inl e' ↦ rw (e, e') (record { passes = due; same = λ p. refl })
        | inr e' ↦
            rw (e, e')
              (pick_behind-Taken t rest (pick now window rest) (λ x. leb x.expiry now) due
                (pick-Taken now window rest))
      ]
]
