-- ===== src/MessageQueue/Order.antt =====
-- Posted messages of kernel/queue.cpp: who gets them, and in which order.
use ring3k.Prelude.{
  append_nil, append_assoc, ℕ, zero, suc, ◌≡◌, refl, ap, sym, ◌∙◌, inl, inr, Bool, true, false,
  Bool-cases, Option, none, some, List, [], ◌∷◌, ◌++◌, length,
}
use ring3k.Prelude.Checked.{Checked, returns, aborts, ◌>>=◌}
use ring3k.Completion.Put.{put_at}
use ring3k.Timers.{Timers, set_timeout}
use ring3k.MessageQueue.{
  Msg, Timer, Queue, post_to, post_message, posted, get_posted_message, get_quit_message,
  get_paint_message, pick, when_picked, get_timer_message, or_else, unchanged, get_message_no_wait,
  wait_until, message_timeout, get_or_wait, get_message,
}

-- The messages are posted one after the other, each at its time.
pub post_all : ℕ → Queue → List Msg → Checked Queue
post_all now q [] = returns q
post_all now q (m ∷ ms) =
    post_message now m.time q m.hwnd m.message m.wparam m.lparam >>= λ r. post_all now r.1 ms

-- So many calls of `get_message_no_wait`, and what they gave.
pub get_all : ℕ → ℕ → ℕ → Option ℕ → Queue → ℕ → Msg → List (Bool × Msg) × Queue
get_all zero now tick win q window msg = ([], q)
get_all (suc n) now tick win q window msg =
    let (found, got, q') = get_message_no_wait now tick win q window msg in
    let (later, last) = get_all n now tick win q' window msg in ((found, got) ∷ later, last)

abbrev pub found_all : List Msg → List (Bool × Msg)
found_all [] = []
found_all (m ∷ ms) = (true, m) ∷ found_all ms

abbrev with_messages : Queue → List Msg → Queue
with_messages q msgs = record q { msg_list = msgs }

post_step :
    (now : ℕ) (q : Queue) (m : Msg)
    → q.waiter_list ≡ []
    → post_message now m.time q m.hwnd m.message m.wparam m.lparam
      ≡ returns (true, with_messages q (q.msg_list ++ m ∷ []))
unfolding post_message
post_step now q m e = ap (post_to now q m) e

post_all_lem :
    (now : ℕ) (q : Queue) (ms : List Msg)
    → q.waiter_list ≡ []
    → post_all now q ms ≡ returns (with_messages q (q.msg_list ++ ms))
unfolding post_all
post_all_lem now q [] e = ap (λ l. returns (with_messages q l)) (sym (append_nil q.msg_list))
post_all_lem now q (m ∷ ms) e =
    ap (λ r. r >>= λ x. post_all now x.1 ms) (post_step now q m e)
    ∙ post_all_lem now (with_messages q (q.msg_list ++ m ∷ [])) ms e
    ∙ ap (λ l. returns (with_messages q l)) (append_assoc q.msg_list (m ∷ []) ms)

get_all_lem :
    (now tick : ℕ) (win : Option ℕ) (q : Queue) (window : ℕ) (msg : Msg) (ms : List Msg)
    → get_all (length ms) now tick win (with_messages q ms) window msg
      ≡ (found_all ms, with_messages q [])
unfolding get_all get_message_no_wait get_posted_message
get_all_lem now tick win q window msg [] = refl
get_all_lem now tick win q window msg (m ∷ ms) =
    ap (λ r. ((true, m) ∷ r.0, r.1)) (get_all_lem now tick win q window msg ms)

-- Posting to a queue on which no thread waits fails no assertion. As many calls of
-- `get_message_no_wait` as messages are there then give all of them, the old ones first and the new
-- ones in the order in which they were posted, before any other message and for whatever window;
-- the rest of the queue is as before.
pub get_all-post_all :
    (now tick : ℕ) (win : Option ℕ) (q : Queue) (window : ℕ) (msg : Msg) (ms : List Msg)
    → q.waiter_list ≡ []
    → (q' : Queue) × (post_all now q ms ≡ returns q')
      × (get_all (length (q.msg_list ++ ms)) now tick win q' window msg
          ≡ (found_all (q.msg_list ++ ms), record q { msg_list = [] }))
get_all-post_all now tick win q window msg ms e = (
  with_messages q (q.msg_list ++ ms),
  post_all_lem now q ms e,
  get_all_lem now tick win q window msg (q.msg_list ++ ms),
)

-- What a step of `get_message_no_wait` gives has these waiters.
abbrev waiters : Bool × Msg × Queue → List ℕ
waiters r = r.2.waiter_list

or_else-waiters :
    (r : Bool × Msg × Queue) (next : Msg → Queue → Bool × Msg × Queue) (l : List ℕ)
    → waiters r ≡ l
    → ((msg : Msg) (q : Queue) → q.waiter_list ≡ l → waiters (next msg q) ≡ l)
    → waiters (or_else r next) ≡ l
or_else-waiters (true, msg, q) next l e f = e
or_else-waiters (false, msg, q) next l e f = f msg q e

posted-waiters :
    (q : Queue) (msg : Msg) (list : List Msg) → waiters (posted q msg list) ≡ q.waiter_list
posted-waiters q msg [] = refl
posted-waiters q msg (m ∷ rest) = refl

quit-waiters : (q : Queue) (msg : Msg) → waiters (get_quit_message q msg) ≡ q.waiter_list
unfolding get_quit_message
quit-waiters q msg = elim (Bool-cases q.quit_message) [ inl e ↦ rw e | inr e ↦ rw e ]

paint-waiters :
    (win : Option ℕ) (tick : ℕ) (q : Queue) (msg : Msg)
    → waiters (unchanged q (get_paint_message win tick msg)) ≡ q.waiter_list
unfolding get_paint_message
paint-waiters none tick q msg = refl
paint-waiters (some win) tick q msg = refl

picked-waiters :
    (now tick : ℕ) (q : Queue) (msg : Msg) (found : Option (Timer × List Timer))
    → waiters (when_picked now tick q msg found) ≡ q.waiter_list
picked-waiters now tick q msg none = refl
picked-waiters now tick q msg (some (t, rest)) = refl

no_wait-waiters :
    (now tick : ℕ) (win : Option ℕ) (q : Queue) (window : ℕ) (msg : Msg)
    → waiters (get_message_no_wait now tick win q window msg) ≡ q.waiter_list
unfolding get_message_no_wait get_posted_message get_timer_message
no_wait-waiters now tick win q window msg =
    or_else-waiters (posted q msg q.msg_list) _ q.waiter_list (posted-waiters q msg q.msg_list)
      (λ msg1 q1 e1.
        or_else-waiters (get_quit_message q1 msg1) _ q.waiter_list (quit-waiters q1 msg1 ∙ e1)
          (λ msg2 q2 e2.
            or_else-waiters (unchanged q2 (get_paint_message win tick msg2)) _ q.waiter_list
              (paint-waiters win tick q2 msg2 ∙ e2)
              (λ msg3 q3 e3. picked-waiters now tick q3 msg3 (pick now window q3.timer_list) ∙ e3)))

abbrev waiting : Queue → Option Msg × Queue
waiting q = (none, q)

stopped :
    (m : Checked Timers) (f : Timers → Queue) (l : List ℕ) (q' : Queue)
    → ((timeouts : Timers) → (f timeouts).waiter_list ≡ l)
    → (m >>= λ timeouts. returns (waiting (f timeouts))) ≡ returns (none, q')
    → q'.waiter_list ≡ l
stopped (returns timeouts) f l q' h e =
    let same : f timeouts ≡ q' = cc e in ap (λ x. x.waiter_list) (sym same) ∙ h timeouts
stopped aborts f l q' h e = cc e

waits_last :
    (now : ℕ) (q : Queue) (window current : ℕ) (r : Bool × Msg × Queue) (q' : Queue)
    → get_or_wait now q window current r ≡ returns (none, q')
    → q'.waiter_list ≡ waiters r ++ current ∷ []
waits_last now q window current (true, msg, q1) q' h = cc h
waits_last now q window current (false, msg, q1) q' h =
    stopped (wait_until now q1 (message_timeout window q1.timer_list)) _
      (q1.waiter_list ++ current ∷ []) q' (λ timeouts. refl) h

-- If `get_message` waits on a queue on which no other thread waits, then the next message that is
-- posted wakes the thread and is the one that it gets; it is not queued, and no thread waits then.
pub post_message-get_message :
    (now later tick : ℕ) (win : Option ℕ) (q q' : Queue) (window current : ℕ) (buffer msg : Msg)
    → q.waiter_list ≡ []
    → get_message now tick win q window current buffer ≡ returns (none, q')
    → (last : Queue) × (post_message later msg.time q' msg.hwnd msg.message msg.wparam msg.lparam
        ≡ returns (true, last))
      × (last.got current ≡ msg)
      × (last.running current ≡ true)
      × (last.waiter_list ≡ [])
      × (last.msg_list ≡ q'.msg_list)
unfolding get_message post_message set_timeout
post_message-get_message now later tick win q q' window current buffer msg alone e =
    let r = get_message_no_wait now tick win q window buffer in
    let one : q'.waiter_list ≡ current ∷ [] =
      waits_last now q window current r q' e
      ∙ ap (λ l. l ++ current ∷ []) (no_wait-waiters now tick win q window buffer ∙ alone) in
    (
      _,
      ap (post_to later q' msg) one,
      put_at q'.got current msg,
      put_at q'.running current true,
      refl,
      refl,
    )
