-- ===== src/Timers/Expiry.antt =====
-- `check_timers` of kernel/timer.cpp.
use ring3k.Prelude.{
  ℕ, zero, suc, ◌+◌, ◌-◌, ◌≤◌, ◌<◌, ◌≡◌, refl, ◌∙◌, inl, inr, true, false, not, ltb, ◌==◌,
  if◌then◌else◌, Bool-cases, some, List, [], ◌∷◌, length, arith,
}
use ring3k.Timers.{Timers, is_linked, unlink, remove, check_loop, check_timers, is_empty}
use ring3k.Timers.Queue.{AllFrom, IsSorted, AllFrom-weaken}

-- How many timeouts of the list have expired.
unfoldable pub expired : ℕ → (ℕ → ℕ) → List ℕ → ℕ
expired now expires [] = 0
expired now expires (x ∷ xs) = (if ltb now (expires x) then 0 else 1) + expired now expires xs

-- The time from now to the first timeout, 0 if there is none.
unfoldable pub time_left : ℕ → (ℕ → ℕ) → List ℕ → ℕ
time_left now expires [] = 0
time_left now expires (t ∷ ts) = expires t - now

expired_le : (now : ℕ) (expires : ℕ → ℕ) (xs : List ℕ) → expired now expires xs ≤ length xs
unfolding expired
expired_le now expires [] = omega arith
expired_le now expires (x ∷ xs) = ground (arith, expired_le now expires xs)

-- Without its first timeout the queue is still sorted.
removed_first :
    (expires : ℕ → ℕ) (t : ℕ) (ts : List ℕ)
    → remove (record { queue = t ∷ ts; expires = expires }) t
      ≡ record { queue = ts; expires = expires }
unfolding remove is_linked unlink
removed_first expires t ts = let same : (t == t) ≡ true = ground arith in rw same

check_next :
    (signal : ℕ → Timers → Timers) (now fuel : ℕ) (s : Timers) (t : ℕ) (ts : List ℕ)
    → s.queue ≡ t ∷ ts
    → ltb now (s.expires t) ≡ false
    → check_loop (suc fuel) signal now s
      ≡ check_loop fuel signal now (signal t (record s { queue = ts }))
unfolding check_loop
check_next signal now fuel s t ts e due = rw (e, due, removed_first s.expires t ts)

check_runs :
    (signal : ℕ → Timers → Timers) (now : ℕ) (s : Timers) (r : ℕ × Timers)
    → is_empty s.queue ≡ false
    → check_loop (length s.queue + 1) signal now s ≡ some r
    → check_timers signal now s ≡ some (not (is_empty s.queue), r.0, r.1)
unfolding check_timers
check_runs signal now s r something runs = rw (something, runs)

module _ (signal : ℕ → Timers → Timers) (now : ℕ)
    (keeps : (t : ℕ) (s : Timers)
      → IsSorted s.expires s.queue
      → IsSorted (signal t s).expires (signal t s).queue)
    (adds_later : (t : ℕ) (s : Timers)
      → expired now (signal t s).expires (signal t s).queue ≤ expired now s.expires s.queue) where
  check_loop_lem :
      (fuel : ℕ) (s : Timers) (xs : List ℕ)
      → s.queue ≡ xs
      → IsSorted s.expires xs
      → expired now s.expires xs < fuel
      → (s' : Timers) × (check_loop fuel signal now s
          ≡ some (time_left now s'.expires s'.queue, s'))
        × IsSorted s'.expires s'.queue
        × AllFrom s'.expires (suc now) s'.queue
  unfolding check_loop time_left AllFrom IsSorted expired
  check_loop_lem zero s xs e sorted enough = absurd (omega arith)
  check_loop_lem (suc fuel) s [] e sorted enough = (s, rw e, rw e tt, rw e tt)
  check_loop_lem (suc fuel) s (t ∷ ts) e (from, sorted) enough =
      elim (Bool-cases (ltb now (s.expires t))) [
        | inl waits ↦ (
          s,
          rw (e, waits),
          rw e (from, sorted),
          rw e (ground arith, AllFrom-weaken s.expires _ _ ts (ground arith) from),
        )
        | inr due ↦
            let s1 = record s { queue = ts } in
            let spent : expired now s.expires ts < fuel = ground arith in
            let (s', runs, good, later) =
              check_loop_lem fuel (signal t s1) (signal t s1).queue refl (keeps t s1 sorted)
                (omega (arith, adds_later t s1, spent)) in
            (s', check_next signal now fuel s t ts e due ∙ runs, good, later)
      ]

  -- If signalling a timeout keeps the queue sorted and adds none that has expired already,
  -- `check_timers` ends. It is false if the queue was empty, and then changes nothing. Otherwise
  -- every timeout left in the queue expires later than now, and the result is the time to the first
  -- of them, or 0 if there is none.
  pub check_timers_lem :
      (s : Timers)
      → IsSorted s.expires s.queue
      → (s' : Timers) × (check_timers signal now s
          ≡ some (not (is_empty s.queue), time_left now s'.expires s'.queue, s'))
        × IsSorted s'.expires s'.queue
        × AllFrom s'.expires (suc now) s'.queue
        × (is_empty s.queue ≡ true → s' ≡ s)
  unfolding check_timers AllFrom time_left
  check_timers_lem s sorted = elim (Bool-cases (is_empty s.queue)) [
    | inl nothing ↦
        let (free, first) = empty_queue s.queue nothing in
        (s, rw (nothing, first), sorted, free, λ _. refl)
    | inr something ↦
        let (s', runs, good, later) =
          check_loop_lem (length s.queue + 1) s s.queue refl sorted
            (omega (arith, expired_le now s.expires s.queue)) in
        (s', check_runs signal now s _ something runs, good, later, λ h. ground (arith, something))
  ]
    where
      empty_queue :
          (xs : List ℕ)
          → is_empty xs ≡ true
          → AllFrom s.expires (suc now) xs × (time_left now s.expires xs ≡ 0)
      empty_queue [] h = (tt, refl)
      empty_queue (x ∷ xs) h = cc
