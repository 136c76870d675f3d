-- ===== src/MessageQueue/Tests.antt =====
-- The message queue of a thread on examples.
use ring3k.Prelude.{◌+◌, ◌≤◌, ◌≡◌, ◌⊎◌, refl, Bool, true, false, Option, none, [], ◌∷◌, arith}
use ring3k.Prelude.Checked.{Checked, returns, aborts}
use ring3k.MessageQueue.{
  Msg, Timer, Queue, set_timer, reset, timer_message, get_timer_message, post_message, get_message,
  get_message_no_wait, get_posted_message, get_quit_message, get_paint_message, pick,
  message_timeout,
}
use ring3k.MessageQueue.Count.{one_if, count}
use ring3k.MessageQueue.Windows.{IsUnique, IsOther, is_set, set_timer_lem, get_timer_message_lem}
use ring3k.MessageQueue.Order.{
  post_all, get_all, found_all, get_all-post_all, post_message-get_message,
}

abbrev no_msg : Msg
no_msg = record { hwnd = 0; message = 0; wparam = 0; lparam = 0; time = 0 }

abbrev a_msg : Msg
a_msg = record { hwnd = 5; message = 256; wparam = 65; lparam = 0; time = 3 }

abbrev empty_queue : Queue
empty_queue = record {
  quit_message = false;
  exit_code = 0;
  msg_list = [];
  waiter_list = [];
  timer_list = [];
  self = 1;
  timeouts = record { queue = []; expires = λ t. 0 };
  got = λ t. no_msg;
  running = λ t. true;
}

empty-IsUnique : IsUnique empty_queue
unfolding IsUnique count
empty-IsUnique window id = omega arith

-- The window 5 has the timer 1.
abbrev with_timer : Queue
with_timer = (set_timer empty_queue 5 1 100 0).1

with_timer-IsUnique : IsUnique with_timer
with_timer-IsUnique = (set_timer_lem empty_queue empty-IsUnique 5 1 100 0).0

set_timer_lem_example :
    let q' = (set_timer with_timer 5 2 200 7).1 in
    IsUnique q'
    × (count (is_set 5 2 200 7) q'.timer_list ≡ 1)
    × ((p : Timer → Bool) → IsOther 5 2 p → count p q'.timer_list ≡ count p with_timer.timer_list)
set_timer_lem_example = set_timer_lem with_timer with_timer-IsUnique 5 2 200 7

get_timer_message_lem_example :
    let r = get_timer_message 1000 1 with_timer 5 no_msg in
    ((r.0 ≡ false) × (r.1 ≡ no_msg) × (r.2 ≡ with_timer))
    ⊎ ((t : Timer) × (r.0 ≡ true)
        × (r.1 ≡ timer_message 1 t)
        × (t.expiry ≤ 1000)
        × ((p : Timer → Bool)
            → count p r.2.timer_list + one_if (p t)
              ≡ count p with_timer.timer_list + one_if (p (reset 1000 t)))
        × IsUnique r.2)
get_timer_message_lem_example = get_timer_message_lem with_timer with_timer-IsUnique 1000 1 5 no_msg

get_all-post_all_example :
    (q' : Queue) × (post_all 0 empty_queue (a_msg ∷ no_msg ∷ []) ≡ returns q')
    × (get_all 2 0 1 none q' 5 no_msg ≡ (found_all (a_msg ∷ no_msg ∷ []), empty_queue))
get_all-post_all_example = get_all-post_all 0 1 none empty_queue 5 no_msg (a_msg ∷ no_msg ∷ []) refl

abbrev result : Checked (Option Msg × Queue) → Queue
result (returns (found, q)) = q
result aborts = empty_queue

-- The thread 9 waits.
abbrev with_waiter : Queue
with_waiter = result (get_message 0 1 none empty_queue 0 9 no_msg)

post_message-get_message_example :
    (last : Queue) × (post_message 4 3 with_waiter 5 256 65 0 ≡ returns (true, last))
    × (last.got 9 ≡ a_msg)
    × (last.running 9 ≡ true)
    × (last.waiter_list ≡ [])
    × (last.msg_list ≡ with_waiter.msg_list)
unfolding get_message get_message_no_wait get_posted_message get_quit_message get_paint_message
    get_timer_message pick message_timeout
post_message-get_message_example =
    post_message-get_message 0 4 1 none empty_queue with_waiter 0 9 no_msg a_msg refl refl
