-- ===== src/Timers/Tests.antt =====
-- Runs of the queue of timeouts: number 2 expires at 10 and number 1 at 20.
use ring3k.Prelude.{
  ◌⊎◌, ℕ, suc, ◌+◌, ◌-◌, ◌≤◌, ◌<◌, ◌≡◌, true, not, ◌==◌, if◌then◌else◌, some, List, [], ◌∷◌, ◌++◌,
  arith,
}
use ring3k.Prelude.Checked.{returns, aborts}
use ring3k.Timers.{
  Timers, large_mod, negative, is_linked, deadline, set_timeout, check_timers, is_empty,
}
use ring3k.Timers.Queue.{AllFrom, AllUpTo, IsSorted, set_timeout_lem, deadline_lem}
use ring3k.Timers.Expiry.{time_left, check_timers_lem}

abbrev sample : Timers
sample = record { queue = 2 ∷ 1 ∷ []; expires = λ t. if t == 2 then 10 else 20 }

sample-IsSorted : IsSorted sample.expires sample.queue
unfolding IsSorted AllFrom
sample-IsSorted = ((omega arith, tt), (tt, tt))

set_timeout_lem_example :
    (is_linked sample.queue 3 ≡ true) × (set_timeout 5 sample 3 (some 15) ≡ aborts)
    ⊎ (s' : Timers) × (before : List ℕ) × (after : List ℕ) × (set_timeout 5 sample 3 (some 15)
        ≡ returns s')
      × IsSorted s'.expires s'.queue
      × (sample.queue ≡ before ++ after)
      × (s'.queue ≡ before ++ 3 ∷ after)
      × AllUpTo s'.expires (deadline 5 15) before
      × AllFrom s'.expires (suc (deadline 5 15)) after
      × ((q : ℕ) → s'.expires q ≡ (if 3 == q then deadline 5 15 else sample.expires q))
set_timeout_lem_example = set_timeout_lem 5 sample 3 15 sample-IsSorted

deadline_lem_example :
    (deadline 5 (large_mod - 7) < negative)
    × (0 < large_mod - 7 → large_mod - 7 < negative → deadline 5 (large_mod - 7) ≡ large_mod - 7)
    × (large_mod - 7 ≡ 0 → deadline 5 (large_mod - 7) ≡ 5)
    × ((distance : ℕ)
        → 0 < distance
        → distance ≤ negative
        → large_mod - 7 + distance ≡ large_mod
        → (5 + distance < negative → deadline 5 (large_mod - 7) ≡ 5 + distance)
          × (negative ≤ 5 + distance → deadline 5 (large_mod - 7) ≡ negative - 1))
deadline_lem_example = deadline_lem 5 (large_mod - 7) (omega arith) (omega arith)

check_timers_lem_example :
    (s' : Timers) × (check_timers (λ t s. s) 12 sample
      ≡ some (not (is_empty sample.queue), time_left 12 s'.expires s'.queue, s'))
    × IsSorted s'.expires s'.queue
    × AllFrom s'.expires 13 s'.queue
    × (is_empty sample.queue ≡ true → s' ≡ sample)
check_timers_lem_example =
    check_timers_lem (λ t s. s) 12 (λ t s sorted. sorted) (λ t s. omega arith) sample
      sample-IsSorted
