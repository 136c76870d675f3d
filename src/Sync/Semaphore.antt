-- ===== src/Sync/Semaphore.antt =====
-- The semaphores of kernel/semaphore.cpp.
use ring3k.Prelude.{
  ℕ, ◌+◌, ◌-◌, ◌%◌, ◌≤◌, ◌<◌, ◌≡◌, refl, Bool, ◌&&◌, true, false, inl, inr, ltb, lt→ltb, le→ltb,
  lt-or-le, ◌==◌, if◌then◌else◌, arith,
}
use ring3k.Status.{status_success, status_semaphore_limit_exceeded}
use ring3k.Sync.{semaphore, Dispatcher, word_mod, store, notify_watchers, semaphore_release}

and_false : (b : Bool) → (b && false) ≡ false
and_false true = refl
and_false false = refl

-- `semaphore_t::release` of `n` with the count within the limit. If count and `n` add up to more
-- than the limit but less than 2^32, it is an error that changes nothing. Otherwise it succeeds and
-- returns the previous count, and the waiting threads are woken if that was zero. The new count is
-- the sum within the limit; a sum of 2^32 or more is taken modulo 2^32, so that the count gets
-- smaller.
pub semaphore_release_lem :
    (d : Dispatcher) (obj count max_count n : ℕ)
    → count ≤ max_count
    → max_count < word_mod
    → n < word_mod
    → semaphore_release d obj count max_count n ≡ (
        if ltb max_count (count + n) && ltb (count + n) word_mod
        then (status_semaphore_limit_exceeded, count, d)
        else let woken = if count == 0 then notify_watchers d obj else d in
          let left = if ltb (count + n) word_mod then count + n else count + n - word_mod in
          (status_success, count, store woken obj (semaphore left max_count)))
unfolding semaphore_release
semaphore_release_lem d obj count max_count n h k l = elim (lt-or-le (count + n) word_mod) [
  | inl low ↦
      let sum : (count + n) % word_mod ≡ count + n = omega (arith, low) in
      let fits : ltb (count + n) word_mod ≡ true = lt→ltb (count + n) word_mod low in
      rw (sum, fits) (ground arith)
  | inr high ↦
      let sum : (count + n) % word_mod ≡ count + n - word_mod = omega (arith, high) in
      let wraps : ltb (count + n) word_mod ≡ false = le→ltb (count + n) word_mod high in
      let left : ltb max_count (count + n - word_mod) ≡ false = ground arith in
      rw (sum, wraps, left, and_false (ltb max_count (count + n)))
]
