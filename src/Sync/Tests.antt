-- ===== src/Sync/Tests.antt =====
-- Runs of the operations on synchronisation objects: thread 7 runs.
use ring3k.Prelude.{
  ◌⊎◌, ltb, ◌&&◌, ℕ, ◌+◌, ◌-◌, ◌≡◌, ◌≢◌, inl, refl, Bool, true, false, ◌==◌, if◌then◌else◌, [], ◌∷◌,
  arith,
}
use ring3k.Status.{
  status_success, status_pending, status_mutant_not_owned, status_semaphore_limit_exceeded,
}
use ring3k.Sync.{
  SyncObject, semaphore, mutant, auto_event, Dispatcher, word_mod, store, notify_watchers,
  take_ownership, release_ownership, new_mutant, is_signalled, satisfy, semaphore_release,
  event_state, event_set, check_wait_any, check_wait_all, all_signalled, signalled_at,
}
use ring3k.Sync.Semaphore.{semaphore_release_lem}
use ring3k.Sync.Mutant.{IsOwnedRight, mutant-IsOwnedRight, release-take_ownership}
use ring3k.Sync.Event.{contains, IsEvent, event_set_lem}
use ring3k.Sync.Wait.{AnyOutcome, check_wait_any-AnyOutcome, IsDistinct, check_wait_all_lem}

-- Object 1 is a semaphore with a count of one, 2 a mutant that thread 9 owns, and 3 an event, which
-- thread 8 watches.
abbrev objects : ℕ → SyncObject
objects o = if o == 1 then semaphore 1 5 else if o == 2 then mutant 9 1 else auto_event false

abbrev sample : Dispatcher
sample = record {
  current = 7;
  objects = objects;
  threads = λ t. record { in_wait = true; ready = false; terminated = false };
  watchers = λ o. if o == 3 then 8 ∷ [] else [];
}

semaphore_release_lem_example : semaphore_release sample 1 1 5 (word_mod - 1) ≡ (
    if ltb 5 (1 + (word_mod - 1)) && ltb (1 + (word_mod - 1)) word_mod
    then (status_semaphore_limit_exceeded, 1, sample)
    else let woken = if 1 == 0 then notify_watchers sample 1 else sample in
      let left =
        if ltb (1 + (word_mod - 1)) word_mod
        then 1 + (word_mod - 1)
        else 1 + (word_mod - 1) - word_mod in
      (status_success, 1, store woken 1 (semaphore left 5)))
semaphore_release_lem_example =
    semaphore_release_lem sample 1 1 5 (word_mod - 1) (omega arith) (omega arith) (omega arith)

owned_once : IsOwnedRight (mutant 7 1)
owned_once = ground arith

mutant-IsOwnedRight_example :
    IsOwnedRight (take_ownership 7 7 1).1
    × IsOwnedRight (release_ownership 7 7 1).2
    × IsOwnedRight (satisfy 7 (mutant 7 1))
    × ((b : Bool) → IsOwnedRight (new_mutant 7 b))
mutant-IsOwnedRight_example = mutant-IsOwnedRight 7 7 1 (omega arith) (omega arith) owned_once

abbrev runner : ℕ
runner = 7

release-take_ownership_example :
    ((runner ≡ 0) ⊎ (runner ≡ runner))
      × (take_ownership runner runner 1 ≡ (status_success, mutant runner (1 + 1)))
      × (release_ownership runner runner (1 + 1) ≡ (status_success, 1 + 1, mutant runner 1))
    ⊎ (runner ≢ 0)
      × (runner ≢ runner)
      × (take_ownership runner runner 1 ≡ (status_mutant_not_owned, mutant runner 1))
      × (release_ownership runner runner 1 ≡ (status_mutant_not_owned, 0, mutant runner 1))
release-take_ownership_example =
    release-take_ownership runner runner 1 (omega arith) (omega arith) owned_once

third-IsEvent : IsEvent (sample.objects 3)
third-IsEvent = (false, inl refl)

event_set_lem_example :
    let (prev, d') = event_set sample 3 in
    (is_signalled d'.current (d'.objects 3) ≡ true)
    × (prev ≡ event_state (sample.objects 3))
    × ((t : ℕ)
        → contains (sample.watchers 3) t ≡ true
        → ((sample.threads t).in_wait ≡ false → d'.threads t ≡ sample.threads t)
          × ((sample.threads t).in_wait ≡ true
              → (sample.threads t).terminated ≡ true
              → d'.threads t ≡ record (sample.threads t) { in_wait = false })
          × ((sample.threads t).in_wait ≡ true
              → (sample.threads t).terminated ≡ false
              → d'.threads t ≡ record (sample.threads t) { in_wait = false; ready = true }))
    × ((t : ℕ) → contains (sample.watchers 3) t ≡ false → d'.threads t ≡ sample.threads t)
    × ((o : ℕ) → o ≢ 3 → d'.objects o ≡ sample.objects o)
event_set_lem_example = event_set_lem sample 3 third-IsEvent

check_wait_any-AnyOutcome_example :
    AnyOutcome sample (3 ∷ 1 ∷ []) 0 (check_wait_any sample (3 ∷ 1 ∷ []) 0)
check_wait_any-AnyOutcome_example = check_wait_any-AnyOutcome sample (3 ∷ 1 ∷ []) 0

two-IsDistinct : IsDistinct (1 ∷ 2 ∷ [])
unfolding IsDistinct contains
two-IsDistinct = (refl, (refl, tt))

check_wait_all_lem_example :
    (all_signalled sample (1 ∷ 2 ∷ []) ≡ false
      → check_wait_all sample (1 ∷ 2 ∷ []) ≡ (status_pending, sample))
    × (all_signalled sample (1 ∷ 2 ∷ []) ≡ true
        → let (r, d') = check_wait_all sample (1 ∷ 2 ∷ []) in
          (r ≡ status_success)
          × ((o : ℕ)
              → d'.objects o ≡ (
                  if contains (1 ∷ 2 ∷ []) o
                  then satisfy sample.current (sample.objects o)
                  else sample.objects o))
          × ((o : ℕ) → contains (1 ∷ 2 ∷ []) o ≡ true → signalled_at sample o ≡ true)
          × (d'.threads ≡ sample.threads)
          × (d'.watchers ≡ sample.watchers))
check_wait_all_lem_example = check_wait_all_lem sample (1 ∷ 2 ∷ []) two-IsDistinct
