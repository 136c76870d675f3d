-- ===== src/Sync.antt =====
-- The objects that threads wait on: kernel/semaphore.cpp, kernel/mutant.cpp, kernel/event.cpp, the
-- base class `sync_object_t` of kernel/object.cpp, and the tests of a wait in kernel/thread.cpp.
-- Objects and threads are numbers; 0 is the null pointer.
pub mod Semaphore
pub mod Mutant
pub mod Event
pub mod Wait
mod Tests
use package.ring3k.Prelude.{
  ℕ, zero, suc, ◌+◌, ◌-◌, ◌%◌, ◌^◌, Bool, true, false, not, ◌&&◌, ◌||◌, ltb, ◌==◌, if◌then◌else◌,
  List, [], ◌∷◌,
}
use package.ring3k.Status.{
  status_success, status_pending, status_mutant_not_owned, status_semaphore_limit_exceeded,
}

abbrev pub word_mod : ℕ
word_mod = 2 ^ 32

-- The classes derived from `sync_object_t`, with their state. `terminated` is that of a thread.
pub data SyncObject : Type 0 where
  semaphore : ℕ → ℕ → SyncObject
  mutant : ℕ → ℕ → SyncObject
  auto_event : Bool → SyncObject
  manual_event : Bool → SyncObject
  thread : Bool → SyncObject

-- The state of a thread that a notification can change.
pub record Waiter : Type 0 where
  pub in_wait : Bool
  pub terminated : Bool
  pub ready : Bool

-- `watchers` are the threads with a watch on an object, in the order of the list.
pub record Dispatcher : Type 0 where
  pub current : ℕ
  pub objects : ℕ → SyncObject
  pub watchers : ℕ → List ℕ
  pub threads : ℕ → Waiter

abbrev pub put {ℓ} : {A : Type ℓ} → (ℕ → A) → ℕ → A → ℕ → A
put f p v q = if p == q then v else f q

abbrev pub store : Dispatcher → ℕ → SyncObject → Dispatcher
store d obj s = record d { objects = put d.objects obj s }

-- `thread_impl_t::start`, `thread_impl_t::notify`. The assertion of `fiber_t::start`, that the thread
-- is not in the list of running threads, is not modelled: `notify` starts only threads in a wait.
pub start : Waiter → Waiter
start w = if w.terminated then w else record w { ready = true }

pub notify : Waiter → Waiter
unfolding start
notify w = if w.in_wait then start (record w { in_wait = false }) else w

-- The loop of `notify_watchers`.
pub notify_all : List ℕ → (ℕ → Waiter) → ℕ → Waiter
notify_all [] threads = threads
notify_all (t ∷ ts) threads = notify_all ts (put threads t (notify (threads t)))

pub notify_watchers : Dispatcher → ℕ → Dispatcher
notify_watchers d obj = record d { threads = notify_all (d.watchers obj) d.threads }

-- `take_ownership` of a mutant with this owner and count, and `release_ownership`, which also
-- gives the previous count.
pub take_ownership : ℕ → ℕ → ℕ → ℕ × SyncObject
take_ownership current owner count =
    if not (owner == 0) && not (owner == current)
    then (status_mutant_not_owned, mutant owner count)
    else (status_success, mutant current ((count + 1) % word_mod))

pub release_ownership : ℕ → ℕ → ℕ → ℕ × ℕ × SyncObject
release_ownership current owner count =
    let left = (count + word_mod - 1) % word_mod in
    if not (owner == current)
    then (status_mutant_not_owned, 0, mutant owner count)
    else (status_success, count, mutant (if left == 0 then 0 else owner) left)

-- A new mutant, taken at once if `initial_owner`.
pub new_mutant : ℕ → Bool → SyncObject
unfolding take_ownership
new_mutant current initial_owner =
    if initial_owner then (take_ownership current 0 0).1 else mutant 0 0

-- The virtual `is_signalled` and `satisfy`.
pub is_signalled : ℕ → SyncObject → Bool
is_signalled current (semaphore count max_count) = ltb 0 count
is_signalled current (mutant owner count) = not (current == 0)
is_signalled current (auto_event state) = state
is_signalled current (manual_event state) = state
is_signalled current (thread terminated) = terminated

pub satisfy : ℕ → SyncObject → SyncObject
unfolding take_ownership
satisfy current (semaphore count max_count) =
    semaphore ((count + word_mod - 1) % word_mod) max_count
satisfy current (mutant owner count) = (take_ownership current owner count).1
satisfy current (auto_event state) = auto_event false
satisfy current (manual_event state) = manual_event state
satisfy current (thread terminated) = thread terminated

-- `semaphore_t::release` of the semaphore `obj`: the status and the previous count.
pub semaphore_release : Dispatcher → ℕ → ℕ → ℕ → ℕ → ℕ × ℕ × Dispatcher
unfolding notify_watchers
semaphore_release d obj count max_count release_count =
    if ltb max_count ((count + release_count) % word_mod)
    then (status_semaphore_limit_exceeded, count, d)
    else (
      status_success,
      count,
      store (if count == 0 then notify_watchers d obj else d) obj
          (semaphore ((count + release_count) % word_mod) max_count),
    )

-- `event_impl_t::set`, `reset` and `pulse`: the previous state and the new one. `with_state` keeps
-- the class of the event.
pub with_state : SyncObject → Bool → SyncObject
with_state (auto_event _) b = auto_event b
with_state (manual_event _) b = manual_event b
with_state s b = s

pub event_state : SyncObject → Bool
event_state (auto_event b) = b
event_state (manual_event b) = b
event_state _ = false

pub event_set : Dispatcher → ℕ → Bool × Dispatcher
unfolding notify_watchers with_state event_state
event_set d obj = (
  event_state (d.objects obj),
  notify_watchers (store d obj (with_state (d.objects obj) true)) obj,
)

pub event_reset : Dispatcher → ℕ → Bool × Dispatcher
unfolding with_state event_state
event_reset d obj = (event_state (d.objects obj), store d obj (with_state (d.objects obj) false))

pub event_pulse : Dispatcher → ℕ → Bool × Dispatcher
unfolding event_set event_reset
event_pulse d obj = let (prev, d') = event_set d obj in (prev, (event_reset d' obj).1)

-- `satisfy` of an object in its place.
abbrev pub satisfy_at : Dispatcher → ℕ → Dispatcher
satisfy_at d obj = store d obj (satisfy d.current (d.objects obj))

abbrev pub signalled_at : Dispatcher → ℕ → Bool
signalled_at d obj = is_signalled d.current (d.objects obj)

-- `check_wait_any` over the objects of the wait list, from index `ret` on.
pub check_wait_any : Dispatcher → List ℕ → ℕ → ℕ × Dispatcher
check_wait_any d [] ret = (status_pending, d)
check_wait_any d (obj ∷ objs) ret =
    let rest = check_wait_any d objs (ret + 1) in
    if signalled_at d obj then (ret, satisfy_at d obj) else rest

-- The two loops of `check_wait_all`.
pub all_signalled : Dispatcher → List ℕ → Bool
all_signalled d [] = true
all_signalled d (obj ∷ objs) = signalled_at d obj && all_signalled d objs

pub satisfy_all : Dispatcher → List ℕ → Dispatcher
satisfy_all d [] = d
satisfy_all d (obj ∷ objs) = satisfy_all (satisfy_at d obj) objs

pub check_wait_all : Dispatcher → List ℕ → ℕ × Dispatcher
check_wait_all d objs =
    if all_signalled d objs then (status_success, satisfy_all d objs) else (status_pending, d)
