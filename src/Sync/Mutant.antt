-- ===== src/Sync/Mutant.antt =====
-- The mutants of kernel/mutant.cpp, and waits on them.
use ring3k.Prelude.{
  ℕ, ◌+◌, ◌<◌, ◌≡◌, ◌≢◌, ◌⊎◌, inl, inr, ◌||◌, ◌==◌, Bool-cases, Bool, [], ◌∷◌, arith,
}
use ring3k.Status.{status_success, status_mutant_not_owned}
use ring3k.Sync.{
  SyncObject, mutant, Dispatcher, word_mod, take_ownership, release_ownership, new_mutant,
  is_signalled, satisfy, check_wait_any,
}

-- A mutant has an owner exactly while its count is not zero.
abbrev pub IsOwnedRight : SyncObject → Type 0
IsOwnedRight (mutant owner count) =
    ((owner ≡ 0) × (count ≡ 0) ⊎ (owner ≢ 0) × (0 < count)) × (count < word_mod)
IsOwnedRight s = Unit {0}

-- The three operations keep this, for a running thread and a count below the largest.
pub mutant-IsOwnedRight :
    (current owner count : ℕ)
    → current ≢ 0
    → count + 1 < word_mod
    → IsOwnedRight (mutant owner count)
    → IsOwnedRight (take_ownership current owner count).1
      × IsOwnedRight (release_ownership current owner count).2
      × IsOwnedRight (satisfy current (mutant owner count))
      × ((b : Bool) → IsOwnedRight (new_mutant current b))
unfolding take_ownership release_ownership satisfy new_mutant
mutant-IsOwnedRight current owner count running small v =
    (ground arith, ground arith, ground arith, λ b. ground arith)

-- A thread may take a mutant that is free or its own: it becomes its owner with the count one
-- higher, and its next release gives the mutant back as it was and returns the higher count. If
-- another thread owns the mutant, the thread is refused both operations, and changes nothing.
pub release-take_ownership :
    (current owner count : ℕ)
    → current ≢ 0
    → count + 1 < word_mod
    → IsOwnedRight (mutant owner count)
    → ((owner ≡ 0) ⊎ (owner ≡ current))
        × (take_ownership current owner count ≡ (status_success, mutant current (count + 1)))
        × (release_ownership current current (count + 1)
            ≡ (status_success, count + 1, mutant owner count))
      ⊎ (owner ≢ 0)
        × (owner ≢ current)
        × (take_ownership current owner count ≡ (status_mutant_not_owned, mutant owner count))
        × (release_ownership current owner count ≡ (status_mutant_not_owned, 0, mutant owner count))
unfolding take_ownership release_ownership
release-take_ownership current owner count running small v =
    elim (Bool-cases ((owner == 0) || (owner == current))) [
      | inl may ↦ inl (ground arith, ground arith, ground arith)
      | inr other ↦ inr (ground arith, ground arith, ground arith, ground arith)
    ]

-- A wait on a mutant that another thread owns does not block: it reports success at once, and the
-- other thread still is the owner.
pub mutant_wait_not_exclusive :
    (d : Dispatcher) (obj owner count : ℕ)
    → d.current ≢ 0
    → d.objects obj ≡ mutant owner count
    → owner ≢ 0
    → owner ≢ d.current
    → let (r, d') = check_wait_any d (obj ∷ []) 0 in
      (r ≡ status_success) × (d'.objects obj ≡ mutant owner count)
unfolding check_wait_any is_signalled satisfy take_ownership
mutant_wait_not_exclusive d obj owner count running e owned other = rw e (ground arith)
