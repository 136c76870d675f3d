-- ===== src/Completion.antt =====
-- kernel/completion.cpp: the I/O completion ports. The number of active threads is an argument. A
-- thread has at most one waiter, which is named by the thread.
pub mod Put
pub mod Idle
mod Tests
use package.ring3k.Prelude.{
  ℕ, zero, suc, Bool, true, false, not, ◌&&◌, ◌||◌, ltb, leb, ◌==◌, if◌then◌else◌, Option, none,
  some, List, [], ◌∷◌, ◌++◌,
}
use package.ring3k.Prelude.Checked.{Checked, returns, aborts, assert, ◌>>=◌, ◌>>◌}
use package.ring3k.Status.{status_success, status_timeout}

-- `completion_packet_t`.
pub record Packet : Type 0 where
  pub key : ℕ
  pub value : ℕ
  pub status : ℕ
  pub info : ℕ

-- `completion_port_impl_t`.
pub record Port : Type 0 where
  pub num_threads : ℕ
  pub queue : List Packet
  pub waiters : List ℕ

-- The ports, `waiting_thread_ports`, the packet of each waiter, and which threads run.
pub record Ports : Type 0 where
  pub ports : ℕ → Port
  pub waiting : List ℕ
  pub packets : ℕ → Option Packet
  pub running : ℕ → Bool

abbrev pub put {ℓ} : {A : Type ℓ} → (ℕ → A) → ℕ → A → ℕ → A
put f n v k = if n == k then v else f k

abbrev pub is_empty {ℓ} : {A : Type ℓ} → List A → Bool
is_empty [] = true
is_empty (x ∷ xs) = false

abbrev pub is_none {ℓ} : {A : Type ℓ} → Option A → Bool
is_none none = true
is_none (some a) = false

unfoldable pub is_linked : List ℕ → ℕ → Bool
is_linked [] n = false
is_linked (x ∷ xs) n = (x == n) || is_linked xs n

-- `list_anchor::unlink`; an element is in a list only once.
unfoldable pub unlink : List ℕ → ℕ → List ℕ
unlink [] n = []
unlink (x ∷ xs) n = if x == n then xs else x ∷ unlink xs n

pub port_wait_idle : Ports → ℕ → Ports
unfolding is_linked
port_wait_idle s p = if is_linked s.waiting p then s else record s { waiting = s.waiting ++ p ∷ [] }

-- What `start_waiter` does with the packet.
pub hand_over : Ports → ℕ → ℕ → Packet → List Packet → Checked Ports
unfolding is_linked unlink
hand_over s p waiter packet rest =
    let waiters' = unlink (s.ports p).waiters waiter in
    do
      assert (is_none (s.packets waiter))
      returns (record {
        ports = put s.ports p (record (s.ports p) { queue = rest; waiters = waiters' });
        waiting =
            if is_empty waiters' && is_linked s.waiting p then unlink s.waiting p else s.waiting;
        packets = put s.packets waiter (some packet);
        running = put s.running waiter true;
      })

-- The rest of `start_waiter`, by the queue.
pub start_from : Ports → ℕ → ℕ → List Packet → Checked Ports
unfolding hand_over
start_from s p waiter [] = aborts
start_from s p waiter (packet ∷ rest) = hand_over s p waiter packet rest

pub start_waiter : Ports → ℕ → ℕ → Checked Ports
unfolding start_from
start_waiter s p waiter = start_from s p waiter (s.ports p).queue

abbrev pub start_first : Ports → ℕ → List ℕ → Checked Ports
start_first s p [] = aborts
start_first s p (waiter ∷ rest) = start_waiter s p waiter

pub check_waiters : Ports → ℕ → Checked Ports
unfolding start_waiter
check_waiters s p = start_first s p (s.ports p).waiters

abbrev pub check_ports : Ports → List ℕ → Checked Ports
check_ports s [] = returns s
check_ports s (p ∷ rest) = check_waiters s p

pub check_completions : Ports → Checked Ports
unfolding check_waiters
check_completions s = check_ports s s.waiting

-- What `set` does for a waiter after the packet was queued.
pub serve : ℕ → Ports → ℕ → List ℕ → Checked Ports
unfolding port_wait_idle start_waiter
serve active s p [] = returns s
serve active s p (waiter ∷ rest) =
    if leb (s.ports p).num_threads active
    then returns (port_wait_idle s p)
    else (do s' ← start_waiter s p waiter; assert (is_empty (s'.ports p).queue); returns s')

pub set : ℕ → Ports → ℕ → Packet → Checked Ports
unfolding serve
set active s p packet =
    let port = s.ports p in
    let s' = record s {
      ports = put s.ports p (record port { queue = port.queue ++ packet ∷ [] });
    } in
    serve active s' p port.waiters

-- A new waiter of the thread, and `stop`.
pub stop : Ports → ℕ → ℕ → Ports
stop s p thread = record s {
  ports = put s.ports p (record (s.ports p) { waiters = (s.ports p).waiters ++ thread ∷ [] });
  packets = put s.packets thread none;
  running = put s.running thread false;
}

-- `remove` up to the point where it has a packet or waits for one.
pub remove_from : ℕ → Ports → ℕ → ℕ → List Packet → Option Packet × Ports
unfolding stop port_wait_idle
remove_from active s p thread [] = (none, stop s p thread)
remove_from active s p thread (packet ∷ rest) =
    if ltb (s.ports p).num_threads active
    then (none, stop (port_wait_idle s p) p thread)
    else (some packet, record s { ports = put s.ports p (record (s.ports p) { queue = rest }) })

pub remove : ℕ → Ports → ℕ → ℕ → Option Packet × Ports
unfolding remove_from
remove active s p thread = remove_from active s p thread (s.ports p).queue

-- The end of `remove`: the status, and the packet that the client gets.
pub removed : Option Packet → ℕ × Option Packet
removed none = (status_timeout, none)
removed (some packet) = (status_success, some packet)
