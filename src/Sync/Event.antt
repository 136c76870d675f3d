-- ===== src/Sync/Event.antt =====
-- The events of kernel/event.cpp and the threads that watch them.
use ring3k.Prelude.{
  ℕ, ◌≡◌, ◌≢◌, refl, ◌∙◌, ◌⊎◌, inl, inr, Bool, true, false, ◌==◌, ◌||◌, if◌then◌else◌, List, [],
  ◌∷◌, arith,
}
use ring3k.Status.{status_pending}
use ring3k.Sync.{
  SyncObject, auto_event, manual_event, Dispatcher, Waiter, put, start, notify, notify_all,
  event_set, event_reset, event_pulse, with_state, event_state, is_signalled, check_wait_any,
}

-- Membership, as a test.
unfoldable pub contains : List ℕ → ℕ → Bool
contains [] a = false
contains (x ∷ xs) a = (x == a) || contains xs a

notify_idem : (w : Waiter) → notify (notify w) ≡ notify w
unfolding notify
notify_idem w = ground arith

pub notify_all_lem :
    (ts : List ℕ) (threads : ℕ → Waiter) (t : ℕ)
    → notify_all ts threads t ≡ (if contains ts t then notify (threads t) else threads t)
unfolding notify_all contains
notify_all_lem [] threads t = refl
notify_all_lem (x ∷ ts) threads t =
    notify_all_lem ts (put threads x (notify (threads x))) t
    ∙ ground (arith, notify_idem (threads t))

-- The classes that have these operations.
abbrev pub IsEvent : SyncObject → Type 0
IsEvent s = (b : Bool) × ((s ≡ auto_event b) ⊎ (s ≡ manual_event b))

-- After `set` the event is signalled and the previous state is returned. Each thread with a watch
-- on it that was waiting is no longer; it is ready now if it was not terminated, and as ready as
-- before if it was. Threads that were not waiting or have no watch on it, and the other objects,
-- are as before.
pub event_set_lem :
    (d : Dispatcher) (obj : ℕ)
    → IsEvent (d.objects obj)
    → let (prev, d') = event_set d obj in
      (is_signalled d'.current (d'.objects obj) ≡ true)
      × (prev ≡ event_state (d.objects obj))
      × ((t : ℕ)
          → contains (d.watchers obj) t ≡ true
          → ((d.threads t).in_wait ≡ false → d'.threads t ≡ d.threads t)
            × ((d.threads t).in_wait ≡ true
                → (d.threads t).terminated ≡ true
                → d'.threads t ≡ record (d.threads t) { in_wait = false })
            × ((d.threads t).in_wait ≡ true
                → (d.threads t).terminated ≡ false
                → d'.threads t ≡ record (d.threads t) { in_wait = false; ready = true }))
      × ((t : ℕ) → contains (d.watchers obj) t ≡ false → d'.threads t ≡ d.threads t)
      × ((o : ℕ) → o ≢ obj → d'.objects o ≡ d.objects o)
unfolding event_set is_signalled event_state notify start with_state
event_set_lem d obj (b, is_event) = (
  ground arith,
  refl,
  λ t watching.
      rw (notify_all_lem (d.watchers obj) d.threads t, watching)
        (λ out. rw out, λ w e. rw (w, e), λ w a. rw (w, a)),
  λ t other. rw (notify_all_lem (d.watchers obj) d.threads t, other),
  λ o other. ground arith,
)

-- A pulse leaves the event unsignalled, so the threads that it woke find nothing when they test
-- their wait again.
pub event_pulse_wakes_none :
    (d : Dispatcher) (obj : ℕ)
    → IsEvent (d.objects obj)
    → let d' = (event_pulse d obj).1 in check_wait_any d' (obj ∷ []) 0 ≡ (status_pending, d')
unfolding event_pulse event_set event_reset check_wait_any is_signalled
event_pulse_wakes_none d obj (b, inl e) = rw e (ground arith)
event_pulse_wakes_none d obj (b, inr e) = rw e (ground arith)
