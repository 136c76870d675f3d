-- ===== src/Timers/Queue.antt =====
-- `set_timeout` and `add` of kernel/timer.cpp, and the order of the queue.
use ring3k.Prelude.{
  ◌⊎◌, ℕ, suc, ◌+◌, ◌-◌, ◌≤◌, ◌<◌, ◌≡◌, refl, ap, subst, inl, inr, true, false, not, ltb, ◌==◌,
  if◌then◌else◌, Bool-cases, some, List, [], ◌∷◌, ◌++◌, arith,
}
use ring3k.Prelude.Checked.{returns, aborts}
use ring3k.Timers.{
  Timers, large_mod, negative, is_linked, valid_after, list_is_valid, queue_is_valid, insert, add,
  deadline, put, is_empty, set_timeout,
}

-- All of the list expire at `bound` or later.
unfoldable pub AllFrom : (ℕ → ℕ) → ℕ → List ℕ → Type 0
AllFrom expires bound [] = Unit {0}
AllFrom expires bound (x ∷ xs) = (bound ≤ expires x) × AllFrom expires bound xs

-- All of the list expire at `bound` or earlier.
unfoldable pub AllUpTo : (ℕ → ℕ) → ℕ → List ℕ → Type 0
AllUpTo expires bound [] = Unit {0}
AllUpTo expires bound (x ∷ xs) = (expires x ≤ bound) × AllUpTo expires bound xs

unfoldable pub IsSorted : (ℕ → ℕ) → List ℕ → Type 0
IsSorted expires [] = Unit {0}
IsSorted expires (x ∷ xs) = AllFrom expires (expires x) xs × IsSorted expires xs

pub AllFrom-weaken :
    (expires : ℕ → ℕ) (a b : ℕ) (xs : List ℕ) → a ≤ b → AllFrom expires b xs → AllFrom expires a xs
unfolding AllFrom
AllFrom-weaken expires a b [] h all = tt
AllFrom-weaken expires a b (x ∷ xs) h (first, all) =
    (omega arith, AllFrom-weaken expires a b xs h all)

AllFrom-insert :
    (s : Timers) (t bound : ℕ) (xs : List ℕ)
    → bound ≤ s.expires t
    → AllFrom s.expires bound xs
    → AllFrom s.expires bound (insert s t xs)
unfolding AllFrom insert
AllFrom-insert s t bound [] h all = (h, tt)
AllFrom-insert s t bound (x ∷ xs) h (first, all) =
    elim (Bool-cases (ltb (s.expires t) (s.expires x))) [
      | inl sooner ↦ rw sooner (h, (first, all))
      | inr later ↦ rw later (first, AllFrom-insert s t bound xs h all)
    ]

-- The queue is split where the timeout goes, in front of all that expire later.
insert_lem :
    (s : Timers) (t : ℕ) (xs : List ℕ)
    → IsSorted s.expires xs
    → (before : List ℕ) × (after : List ℕ) × (xs ≡ before ++ after)
      × (insert s t xs ≡ before ++ t ∷ after)
      × AllUpTo s.expires (s.expires t) before
      × AllFrom s.expires (suc (s.expires t)) after
      × IsSorted s.expires (insert s t xs)
unfolding insert IsSorted AllFrom AllUpTo
insert_lem s t [] sorted = ([], [], refl, refl, tt, tt, (tt, tt))
insert_lem s t (x ∷ xs) (from, sorted) = elim (Bool-cases (ltb (s.expires t) (s.expires x))) [
  | inl sooner ↦
      let lt : s.expires t < s.expires x = ground arith in
      rw sooner (
        [],
        x ∷ xs,
        refl,
        refl,
        tt,
        (omega arith, AllFrom-weaken s.expires _ _ xs (omega arith) from),
        ((omega arith, AllFrom-weaken s.expires _ _ xs (omega arith) from), (from, sorted)),
      )
  | inr later ↦
      let le : s.expires x ≤ s.expires t = ground arith in
      let (before, after, e, f, up, down, rest) = insert_lem s t xs sorted in
      rw later (
        x ∷ before,
        after,
        ap (λ l. x ∷ l) e,
        ap (λ l. x ∷ l) f,
        (le, up),
        down,
        (AllFrom-insert s t (s.expires x) xs le from, rest),
      )
]

valid_after_lem :
    (s : Timers) (x : ℕ) (xs : List ℕ) → IsSorted s.expires (x ∷ xs) → valid_after s x xs ≡ true
unfolding valid_after IsSorted AllFrom
valid_after_lem s x [] sorted = refl
valid_after_lem s x (y ∷ ys) ((le, _), sorted) =
    let no_sooner : ltb (s.expires y) (s.expires x) ≡ false = ground arith in
    rw no_sooner (valid_after_lem s y ys sorted)

list_is_valid_lem : (s : Timers) (xs : List ℕ) → IsSorted s.expires xs → list_is_valid s xs ≡ true
unfolding list_is_valid
list_is_valid_lem s [] sorted = refl
list_is_valid_lem s (x ∷ xs) sorted = valid_after_lem s x xs sorted

-- A timeout that is not in the queue may get another time.
AllFrom-put :
    (s : Timers) (t time bound : ℕ) (xs : List ℕ)
    → is_linked xs t ≡ false
    → AllFrom s.expires bound xs
    → AllFrom (put s.expires t time) bound xs
unfolding AllFrom is_linked
AllFrom-put s t time bound [] out all = tt
AllFrom-put s t time bound (x ∷ xs) out (first, all) =
    (ground arith, AllFrom-put s t time bound xs (ground arith) all)

IsSorted-put :
    (s : Timers) (t time : ℕ) (xs : List ℕ)
    → is_linked xs t ≡ false
    → IsSorted s.expires xs
    → IsSorted (put s.expires t time) xs
unfolding IsSorted is_linked
IsSorted-put s t time [] out sorted = tt
IsSorted-put s t time (x ∷ xs) out (from, sorted) =
    let other : (t == x) ≡ false = ground arith in
    let same : put s.expires t time x ≡ s.expires x = rw other in
    (
      rw same (AllFrom-put s t time _ xs (ground arith) from),
      IsSorted-put s t time xs (ground arith) sorted,
    )

not_empty : (before after : List ℕ) (t : ℕ) → is_empty (before ++ t ∷ after) ≡ false
not_empty [] after t = refl
not_empty (x ∷ before) after t = refl

set_unlinked :
    (now : ℕ) (s : Timers) (t time : ℕ)
    → IsSorted s.expires s.queue
    → is_linked s.queue t ≡ false
    → (s' : Timers) × (before : List ℕ) × (after : List ℕ) × (set_timeout now s t (some time)
        ≡ returns s')
      × IsSorted s'.expires s'.queue
      × (s.queue ≡ before ++ after)
      × (s'.queue ≡ before ++ t ∷ after)
      × AllUpTo s'.expires (deadline now time) before
      × AllFrom s'.expires (suc (deadline now time)) after
      × ((q : ℕ) → s'.expires q ≡ (if t == q then deadline now time else s.expires q))
unfolding set_timeout add queue_is_valid
set_unlinked now s t time sorted out =
    let s1 = record s { expires = put s.expires t (deadline now time) } in
    let expires : s1.expires t ≡ deadline now time = ground arith in
    let (before, after, e, f, up, down, sorted') =
      insert_lem s1 t s.queue (IsSorted-put s t (deadline now time) s.queue out sorted) in
    let some_left : is_empty (insert s1 t s.queue) ≡ false = rw f (not_empty before after t) in
    let s' = record s1 { queue = insert s1 t s.queue } in
    let unlinked : not (is_linked s.queue t) ≡ true = rw out in
    let valid = list_is_valid_lem s' (insert s1 t s.queue) sorted' in
    (
      s',
      before,
      after,
      rw (unlinked, some_left, valid),
      sorted',
      e,
      f,
      subst (λ b. AllUpTo s1.expires b before) expires up,
      subst (λ b. AllFrom s1.expires (suc b) after) expires down,
      λ q. refl,
    )

-- Setting a timeout in a sorted queue. If it is in the queue already, the assertion of the list
-- fails. Otherwise setting it succeeds: it goes behind all timeouts that expire no later and in
-- front of all that expire later; the others keep their order and times.
pub set_timeout_lem :
    (now : ℕ) (s : Timers) (t time : ℕ)
    → IsSorted s.expires s.queue
    → (is_linked s.queue t ≡ true) × (set_timeout now s t (some time) ≡ aborts)
      ⊎ (s' : Timers) × (before : List ℕ) × (after : List ℕ) × (set_timeout now s t (some time)
          ≡ returns s')
        × IsSorted s'.expires s'.queue
        × (s.queue ≡ before ++ after)
        × (s'.queue ≡ before ++ t ∷ after)
        × AllUpTo s'.expires (deadline now time) before
        × AllFrom s'.expires (suc (deadline now time)) after
        × ((q : ℕ) → s'.expires q ≡ (if t == q then deadline now time else s.expires q))
unfolding set_timeout add
set_timeout_lem now s t time sorted = elim (Bool-cases (is_linked s.queue t)) [
  | inl linked ↦ inl (linked, rw linked)
  | inr out ↦ inr (set_unlinked now s t time sorted out)
]

-- The deadline is never negative. It is the time asked for if that is positive, and now at 0; a
-- negative time is the distance from now, and the last time of all if the sum overflows.
pub deadline_lem :
    (now time : ℕ)
    → now < negative
    → time < large_mod
    → (deadline now time < negative)
      × (0 < time → time < negative → deadline now time ≡ time)
      × (time ≡ 0 → deadline now time ≡ now)
      × ((distance : ℕ)
          → 0 < distance
          → distance ≤ negative
          → time + distance ≡ large_mod
          → (now + distance < negative → deadline now time ≡ now + distance)
            × (negative ≤ now + distance → deadline now time ≡ negative - 1))
unfolding deadline
deadline_lem now time h k = (
  ground arith,
  λ pos small. ground arith,
  λ z. ground arith,
  λ d pos small e. (λ fits. ground arith, λ over. ground arith),
)
