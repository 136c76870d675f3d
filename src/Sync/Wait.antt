-- ===== src/Sync/Wait.antt =====
-- `check_wait_any` and `check_wait_all` of kernel/thread.cpp.
use ring3k.Prelude.{
  ℕ, suc, ◌+◌, ◌-◌, ◌≡◌, refl, ◌∙◌, inl, inr, true, false, ◌==◌, if◌then◌else◌, Bool-cases, ==→≡,
  List, [], ◌∷◌, arith,
}
use ring3k.Status.{status_success, status_pending}
use ring3k.Sync.{
  semaphore, Dispatcher, word_mod, is_signalled, satisfy, satisfy_at, signalled_at, check_wait_any,
  check_wait_all, all_signalled, satisfy_all,
}
use ring3k.Sync.Event.{contains}

-- `i` is the index of the first signalled object of the list, which is `obj`.
pub data IsFirst (d : Dispatcher) : List ℕ → ℕ → ℕ → Type 0 where
  here : {obj : ℕ} {objs : List ℕ} → signalled_at d obj ≡ true → IsFirst d (obj ∷ objs) 0 obj
  later :
      {o obj i : ℕ} {objs : List ℕ}
      → signalled_at d o ≡ false
      → IsFirst d objs i obj
      → IsFirst d (o ∷ objs) (suc i) obj

-- Every object of the list is unsignalled.
abbrev pub NoneSignalled : Dispatcher → List ℕ → Type 0
NoneSignalled d [] = Unit {0}
NoneSignalled d (o ∷ objs) = (signalled_at d o ≡ false) × NoneSignalled d objs

-- The two outcomes of a wait for any object.
pub data AnyOutcome (d : Dispatcher) (objs : List ℕ) (ret : ℕ) (r : ℕ × Dispatcher) : Type 0 where
  blocked : NoneSignalled d objs → r ≡ (status_pending, d) → AnyOutcome d objs ret r
  woken :
      (i obj : ℕ) → IsFirst d objs i obj → r ≡ (ret + i, satisfy_at d obj) → AnyOutcome d objs ret r

any_next :
    (d : Dispatcher) (o ret : ℕ) (objs : List ℕ) {r : ℕ × Dispatcher}
    → signalled_at d o ≡ false
    → AnyOutcome d objs (ret + 1) r
    → AnyOutcome d (o ∷ objs) ret r
any_next d o ret objs off (blocked n e) = blocked (off, n) e
any_next d o ret objs off (woken i obj f e) = woken (suc i) obj (later off f) (e ∙ ground arith)

-- A wait for any of several objects is pending and changes nothing if none is signalled. Otherwise
-- it returns the index of the first signalled one, and satisfies that one only.
pub check_wait_any-AnyOutcome :
    (d : Dispatcher) (objs : List ℕ) (ret : ℕ) → AnyOutcome d objs ret (check_wait_any d objs ret)
unfolding check_wait_any
check_wait_any-AnyOutcome d [] ret = blocked tt refl
check_wait_any-AnyOutcome d (o ∷ objs) ret = elim (Bool-cases (signalled_at d o)) [
  | inl on ↦ rw on (woken 0 o (here on) (ground arith))
  | inr off ↦ rw off (any_next d o ret objs off (check_wait_any-AnyOutcome d objs (ret + 1)))
]

-- No object stands in the list twice.
unfoldable pub IsDistinct : List ℕ → Type 0
IsDistinct [] = Unit {0}
IsDistinct (o ∷ objs) = (contains objs o ≡ false) × IsDistinct objs

satisfy_all_lem :
    (d : Dispatcher) (objs : List ℕ) (o : ℕ)
    → IsDistinct objs
    → (satisfy_all d objs).objects o
      ≡ (if contains objs o then satisfy d.current (d.objects o) else d.objects o)
unfolding satisfy_all contains IsDistinct
satisfy_all_lem d [] o u = refl
satisfy_all_lem d (x ∷ objs) o (fresh, u) = satisfy_all_lem (satisfy_at d x) objs o u ∙ ground arith

pub all_signalled-contains :
    (d : Dispatcher) (objs : List ℕ) (o : ℕ)
    → all_signalled d objs ≡ true
    → contains objs o ≡ true
    → signalled_at d o ≡ true
unfolding all_signalled contains
all_signalled-contains d [] o a c = cc
all_signalled-contains d (x ∷ objs) o a c = elim (Bool-cases (x == o)) [
  | inl e ↦ let same = ==→≡ _ _ e in rw (← same) (ground arith)
  | inr e ↦ all_signalled-contains d objs o (ground arith) (ground arith)
]

satisfy_all-rest :
    (d : Dispatcher) (objs : List ℕ)
    → ((satisfy_all d objs).threads ≡ d.threads) × ((satisfy_all d objs).watchers ≡ d.watchers)
unfolding satisfy_all
satisfy_all-rest d [] = (refl, refl)
satisfy_all-rest d (x ∷ objs) = satisfy_all-rest (satisfy_at d x) objs

-- A wait for all of several distinct objects is pending and changes nothing unless each of them is
-- signalled. Then it succeeds, and each of them is satisfied exactly once; no other object, no
-- thread and no list of watchers changes.
pub check_wait_all_lem :
    (d : Dispatcher) (objs : List ℕ)
    → IsDistinct objs
    → (all_signalled d objs ≡ false → check_wait_all d objs ≡ (status_pending, d))
      × (all_signalled d objs ≡ true
          → let (r, d') = check_wait_all d objs in
            (r ≡ status_success)
            × ((o : ℕ)
                → d'.objects o
                  ≡ (if contains objs o then satisfy d.current (d.objects o) else d.objects o))
            × ((o : ℕ) → contains objs o ≡ true → signalled_at d o ≡ true)
            × (d'.threads ≡ d.threads)
            × (d'.watchers ≡ d.watchers))
unfolding check_wait_all
check_wait_all_lem d objs distinct = (
  λ off. rw off,
  λ on. rw on (
    refl,
    λ o. satisfy_all_lem d objs o distinct,
    λ o c. all_signalled-contains d objs o on c,
    (satisfy_all-rest d objs).0,
    (satisfy_all-rest d objs).1,
  ),
)

-- With one semaphore named twice, a wait for all takes two from a count of one: it succeeds, and
-- the count wraps round to 2^32 - 1.
pub check_wait_all_twice :
    (d : Dispatcher) (obj max_count : ℕ)
    → d.objects obj ≡ semaphore 1 max_count
    → let (r, d') = check_wait_all d (obj ∷ obj ∷ []) in
      (r ≡ status_success) × (d'.objects obj ≡ semaphore (word_mod - 1) max_count)
unfolding check_wait_all all_signalled satisfy_all is_signalled satisfy
check_wait_all_twice d obj max_count e = rw e (ground arith)
