-- ===== src/MessageQueue.antt =====
-- kernel/queue.cpp: the message queue of a thread, with its window timers. The clock, the tick count
-- and the window that wants to be painted are arguments, and the global queue of timeouts is that
-- of kernel/timer.cpp. Times are LARGE_INTEGERs that are not negative.
pub mod Count
pub mod Windows
pub mod Order
mod Tests
use package.ring3k.Prelude.{
  ℕ, zero, suc, ◌+◌, ◌*◌, ◌%◌, ◌^◌, Bool, true, false, not, ◌&&◌, ◌||◌, ltb, leb, ◌==◌,
  if◌then◌else◌, Option, none, some, List, [], ◌∷◌, ◌++◌,
}
use package.ring3k.Prelude.Checked.{Checked, returns, aborts, ◌>>=◌}
use package.ring3k.Completion.{put}
use package.ring3k.Timers.{Timers, set_timeout}

-- `MSG`; its point is always zero.
pub record Msg : Type 0 where
  pub hwnd : ℕ
  pub message : ℕ
  pub wparam : ℕ
  pub lparam : ℕ
  pub time : ℕ

-- `win_timer_tt`.
pub record Timer : Type 0 where
  pub hwnd : ℕ
  pub id : ℕ
  pub lparam : ℕ
  pub period : ℕ
  pub expiry : ℕ

-- `thread_message_queue_tt`. A waiter is named by its thread, which has a message in `got`; `self`
-- is the queue as a timeout, and `timeouts` holds the timeouts of all.
pub record Queue : Type 0 where
  pub quit_message : Bool
  pub exit_code : ℕ
  pub msg_list : List Msg
  pub waiter_list : List ℕ
  pub timer_list : List Timer
  pub self : ℕ
  pub timeouts : Timers
  pub got : ℕ → Msg
  pub running : ℕ → Bool

abbrev pub wm_quit : ℕ
wm_quit = 0x0012

abbrev pub wm_timer : ℕ
wm_timer = 0x0113

abbrev pub wm_paint : ℕ
wm_paint = 0x000f

abbrev pub large_mod : ℕ
large_mod = 2 ^ 64

pub post_quit_message : Queue → ℕ → Queue
post_quit_message q ret = record q { quit_message = true; exit_code = ret }

-- The caller's message, changed where there is one to get.
pub get_quit_message : Queue → Msg → Bool × Msg × Queue
get_quit_message q msg =
    if q.quit_message
    then (
      true,
      record msg { message = wm_quit; wparam = q.exit_code },
      record q { quit_message = false },
    )
    else (false, msg, q)

-- `win` is what `find_window_to_repaint` finds.
pub get_paint_message : Option ℕ → ℕ → Msg → Bool × Msg
get_paint_message none tick msg = (false, msg)
get_paint_message (some win) tick msg =
    (true, record msg { message = wm_paint; time = tick; hwnd = win })

abbrev pub woken : Queue → ℕ → List ℕ → Timers → Queue
woken q thread rest timeouts = record q {
  waiter_list = rest;
  timeouts = timeouts;
  running = put q.running thread true;
}

-- The message goes to a waiter, or behind the others.
abbrev pub post_to : ℕ → Queue → Msg → List ℕ → Checked (Bool × Queue)
post_to now q msg [] = returns (true, record q { msg_list = q.msg_list ++ msg ∷ [] })
post_to now q msg (thread ∷ rest) = do
  timeouts ← set_timeout now q.timeouts q.self none
  returns (true, woken (record q { got = put q.got thread msg }) thread rest timeouts)

pub post_message : ℕ → ℕ → Queue → ℕ → ℕ → ℕ → ℕ → Checked (Bool × Queue)
post_message now tick q window message wparam lparam =
    let msg : Msg = record {
      hwnd = window;
      message = message;
      wparam = wparam;
      lparam = lparam;
      time = tick;
    } in
    post_to now q msg q.waiter_list

abbrev pub posted : Queue → Msg → List Msg → Bool × Msg × Queue
posted q msg [] = (false, msg, q)
posted q msg (m ∷ rest) = (true, m, record q { msg_list = rest })

pub get_posted_message : Queue → Msg → Bool × Msg × Queue
get_posted_message q msg = posted q msg q.msg_list

abbrev pub is_timer : ℕ → ℕ → Timer → Bool
is_timer window id t = (t.id == id) && (t.hwnd == window)

abbrev pub beside : Timer → Option (Timer × List Timer) → Option (Timer × List Timer)
beside t none = none
beside t (some (found, rest)) = some (found, t ∷ rest)

-- `find_timer`, and the list without the timer that it finds.
pub take_timer : ℕ → ℕ → List Timer → Option (Timer × List Timer)
take_timer window id [] = none
take_timer window id (t ∷ rest) =
    let later = take_timer window id rest in
    if is_timer window id t then some (t, rest) else beside t later

pub reset : ℕ → Timer → Timer
reset now t = record t { expiry = (now + t.period * 10000) % large_mod }

-- What `timer_add` does behind a timer that expires sooner: `later` is the rest with the timer added.
abbrev pub add_behind : Timer → Timer → List Timer → List Timer → List Timer
add_behind timer t [] later = timer ∷ t ∷ []
add_behind timer t (u ∷ rest) later = t ∷ later

-- The list after `timer_add`.
pub timer_add : Timer → List Timer → List Timer
timer_add timer [] = timer ∷ []
timer_add timer (t ∷ rest) =
    let later = timer_add timer rest in
    if leb timer.expiry t.expiry then timer ∷ t ∷ rest else add_behind timer t rest later

-- The loop of `get_timer_message` behind a timer of another window.
abbrev pub pick_behind :
    Timer → List Timer → Option (Timer × List Timer) → Option (Timer × List Timer)
pick_behind t [] later = some (t, [])
pick_behind t (u ∷ rest) later = beside t later

-- The timer that `get_timer_message` takes, and the list without it.
pub pick : ℕ → ℕ → List Timer → Option (Timer × List Timer)
pick now window [] = none
pick now window (t ∷ rest) =
    let later = pick now window rest in
    if ltb now t.expiry
    then none
    else if (window == 0) || (t.hwnd == window)
    then some (t, rest)
    else pick_behind t rest later

abbrev pub timer_message : ℕ → Timer → Msg
timer_message tick t = record {
  hwnd = t.hwnd;
  message = wm_timer;
  wparam = t.id;
  lparam = t.lparam;
  time = tick;
}

abbrev pub when_picked : ℕ → ℕ → Queue → Msg → Option (Timer × List Timer) → Bool × Msg × Queue
when_picked now tick q msg none = (false, msg, q)
when_picked now tick q msg (some (t, rest)) =
    (true, timer_message tick t, record q { timer_list = timer_add (reset now t) rest })

pub get_timer_message : ℕ → ℕ → Queue → ℕ → Msg → Bool × Msg × Queue
get_timer_message now tick q window msg = when_picked now tick q msg (pick now window q.timer_list)

abbrev pub start_timer : Queue → ℕ → ℕ → Option (Timer × List Timer) → Queue
start_timer q elapse proc none = q
start_timer q elapse proc (some (t, rest)) = record q {
  timer_list = timer_add (record t { period = elapse; lparam = proc }) rest;
}

abbrev pub new_timer : ℕ → ℕ → Timer
new_timer window id = record { hwnd = window; id = id; lparam = 0; period = 0; expiry = 0 }

-- The timer that `set_timer` changes, and the others.
abbrev pub old_or_new :
    ℕ → ℕ → List Timer → Option (Timer × List Timer) → Option (Timer × List Timer)
old_or_new window id timers none = some (new_timer window id, timers)
old_or_new window id timers (some (t, rest)) = some (t, rest)

pub set_timer : Queue → ℕ → ℕ → ℕ → ℕ → Bool × Queue
set_timer q window id elapse proc =
    let found = take_timer window id q.timer_list in
    (true, start_timer q elapse proc (old_or_new window id q.timer_list found))

abbrev pub killed : Queue → Option (Timer × List Timer) → Bool × Queue
killed q none = (false, q)
killed q (some (t, rest)) = (true, record q { timer_list = rest })

pub kill_timer : Queue → ℕ → ℕ → Bool × Queue
kill_timer q window id = killed q (take_timer window id q.timer_list)

-- `get_message_timeout`.
pub message_timeout : ℕ → List Timer → Option ℕ
message_timeout window [] = none
message_timeout window (t ∷ rest) =
    if not (window == 0) && not (t.hwnd == window)
    then message_timeout window rest
    else some t.expiry

abbrev pub or_else : Bool × Msg × Queue → (Msg → Queue → Bool × Msg × Queue) → Bool × Msg × Queue
or_else (true, msg, q) next = (true, msg, q)
or_else (false, msg, q) next = next msg q

abbrev pub unchanged : Queue → Bool × Msg → Bool × Msg × Queue
unchanged q (found, msg) = (found, msg, q)

pub get_message_no_wait : ℕ → ℕ → Option ℕ → Queue → ℕ → Msg → Bool × Msg × Queue
get_message_no_wait now tick win q window msg = or_else (get_posted_message q msg) λ msg q.
    or_else (get_quit_message q msg) λ msg q.
      or_else (unchanged q (get_paint_message win tick msg))
        λ msg q. get_timer_message now tick q window msg

abbrev pub signalled : ℕ → Queue → List ℕ → Checked Queue
signalled now q [] = returns q
signalled now q (thread ∷ rest) = do
  timeouts ← set_timeout now q.timeouts q.self none
  returns (woken q thread rest timeouts)

pub signal_timeout : ℕ → Queue → Checked Queue
signal_timeout now q = signalled now q q.waiter_list

abbrev pub wait_until : ℕ → Queue → Option ℕ → Checked Timers
wait_until now q none = returns q.timeouts
wait_until now q (some t) = set_timeout now q.timeouts q.self (some t)

-- `get_message` up to the point where it has a message, or its thread waits for one.
abbrev pub get_or_wait : ℕ → Queue → ℕ → ℕ → Bool × Msg × Queue → Checked (Option Msg × Queue)
get_or_wait now q window current (true, msg, q') = returns (some msg, q')
get_or_wait now q window current (false, msg, q') = do
  timeouts ← wait_until now q' (message_timeout window q'.timer_list)
  returns (
    none,
    record q' {
      timeouts = timeouts;
      waiter_list = q'.waiter_list ++ current ∷ [];
      got = put q'.got current msg;
      running = put q'.running current false;
    },
  )

pub get_message : ℕ → ℕ → Option ℕ → Queue → ℕ → ℕ → Msg → Checked (Option Msg × Queue)
get_message now tick win q window current msg =
    get_or_wait now q window current (get_message_no_wait now tick win q window msg)
