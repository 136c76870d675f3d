-- ===== src/Pipes/Messages.antt =====
-- Reading and writing on both ends of a named pipe, in kernel/namedpipe.cpp.
pub mod Exchange
pub mod Writing
pub mod Reading
pub mod Delivery
use ring3k.Prelude.{
  ℕ, zero, suc, Bool, true, false, not, if◌then◌else◌, Option, none, some, List, [], ◌∷◌, ◌++◌,
  length, min,
}
use ring3k.Prelude.Checked.{Checked, returns, aborts, assert, ◌>>=◌, ◌>>◌}
use ring3k.Completion.{is_none}
use ring3k.Pipes.{
  Server, Client, Pipe, Outcome, finished, blocked, is_connected, set_server, set_client_of,
  start_thread, stop, wait_on,
}
use ring3k.Status.{
  is_error, status_success, status_pipe_broken, status_pipe_busy, status_thread_is_terminating,
}

abbrev pub take : ℕ → List ℕ → List ℕ
take zero xs = []
take (suc n) [] = []
take (suc n) (x ∷ xs) = x ∷ take n xs

-- The bytes that a read of so many bytes copies of a message.
abbrev pub part_of : List ℕ → ℕ → List ℕ
part_of msg size = take (min size (length msg)) msg

-- A server takes its first message, if there is one; `copy` is the status of `copy_to_user`.
abbrev pub receive : Pipe → ℕ → ℕ → ℕ → List (List ℕ) → Outcome × Pipe
receive s v size copy [] = (finished status_success [], s)
receive s v size copy (msg ∷ rest) = if is_error copy then (finished copy [], s) else (
  finished status_success (part_of msg size),
  set_server s v (record (s.server v) { received_messages = rest }),
)

abbrev pub receive_or_wait : Pipe → ℕ → ℕ → ℕ → ℕ → List (List ℕ) → Outcome × Pipe
receive_or_wait s v current size copy [] = wait_on s v current
receive_or_wait s v current size copy (msg ∷ rest) = receive s v size copy (msg ∷ rest)

unfoldable pub server_read : Pipe → ℕ → ℕ → ℕ → ℕ → Outcome × Pipe
server_read s v current size copy =
    if not (is_connected (s.server v).state)
    then (finished status_pipe_broken [], s)
    else if not (is_none (s.server v).thread)
    then (finished status_pipe_busy [], s)
    else receive_or_wait s v current size copy (s.server v).received_messages

-- `read` of a server behind the wait.
pub server_read_resumed : Pipe → ℕ → Bool → ℕ → ℕ → Checked (Outcome × Pipe)
server_read_resumed s v is_terminated size copy =
    if is_terminated then returns (finished status_thread_is_terminating [], s) else (do
      assert (is_none (s.server v).thread)
      returns (receive s v size copy (s.server v).received_messages))

abbrev pub wake_client : Pipe → ℕ → Option ℕ → Checked Pipe
wake_client s c none = returns s
wake_client s c (some thread) =
    start_thread (set_client_of s c (record (s.client c) { thread = none })) thread

abbrev pub wake_client_of : Pipe → Option ℕ → Checked Pipe
wake_client_of s none = aborts
wake_client_of s (some c) = wake_client s c (s.client c).thread

pub queue_message_to_client : Pipe → ℕ → List ℕ → Checked Pipe
queue_message_to_client s v msg =
    let server = s.server v in
    let s' = set_server s v (record server { sent_messages = server.sent_messages ++ msg ∷ [] }) in
    do assert (is_connected server.state); wake_client_of s' server.client

-- `write` of a server; `copy` is the status of `copy_from_user`.
pub server_write : Pipe → ℕ → List ℕ → ℕ → Checked (ℕ × Pipe)
server_write s v msg copy =
    if is_error copy
    then returns (copy, s)
    else (do s' ← queue_message_to_client s v msg; returns (status_success, s'))

abbrev pub wake_server : Pipe → ℕ → Option ℕ → Checked Pipe
wake_server s v none = returns s
wake_server s v (some thread) =
    start_thread (set_server s v (record (s.server v) { thread = none })) thread

unfoldable pub queue_message_from_client : Pipe → ℕ → List ℕ → Checked Pipe
queue_message_from_client s v msg =
    let server = s.server v in
    let s' =
      set_server s v (record server { received_messages = server.received_messages ++ msg ∷ [] }) in
    do assert (is_connected server.state); wake_server s' v server.thread

abbrev pub write_to : Pipe → Option ℕ → List ℕ → ℕ → Checked (ℕ × Pipe)
write_to s none msg copy = returns (status_pipe_broken, s)
write_to s (some v) msg copy =
    if not (is_connected (s.server v).state)
    then returns (status_pipe_broken, s)
    else if is_error copy
    then returns (copy, s)
    else (do s' ← queue_message_from_client s v msg; returns (status_success, s'))

unfoldable pub client_write : Pipe → ℕ → List ℕ → ℕ → Checked (ℕ × Pipe)
client_write s c msg copy = write_to s (s.client c).server msg copy

-- A client takes the first message that its server sent.
abbrev pub fetch : Pipe → ℕ → ℕ → ℕ → List (List ℕ) → Outcome × Pipe
fetch s v size copy [] = (finished status_success [], s)
fetch s v size copy (msg ∷ rest) = if is_error copy then (finished copy [], s) else (
  finished status_success (part_of msg size),
  set_server s v (record (s.server v) { sent_messages = rest }),
)

abbrev pub fetch_or_wait : Pipe → ℕ → ℕ → ℕ → ℕ → ℕ → List (List ℕ) → Outcome × Pipe
fetch_or_wait s c v current size copy [] =
    (blocked, stop (set_client_of s c (record (s.client c) { thread = some current })) current)
fetch_or_wait s c v current size copy (msg ∷ rest) = fetch s v size copy (msg ∷ rest)

abbrev pub read_from : Pipe → ℕ → Option ℕ → ℕ → ℕ → ℕ → Outcome × Pipe
read_from s c none current size copy = (finished status_pipe_broken [], s)
read_from s c (some v) current size copy =
    if not (is_connected (s.server v).state)
    then (finished status_pipe_broken [], s)
    else if not (is_none (s.client c).thread)
    then (finished status_pipe_busy [], s)
    else fetch_or_wait s c v current size copy (s.server v).sent_messages

pub client_read : Pipe → ℕ → ℕ → ℕ → ℕ → Outcome × Pipe
client_read s c current size copy = read_from s c (s.client c).server current size copy

abbrev pub fetch_from : Pipe → Option ℕ → ℕ → ℕ → Checked (Outcome × Pipe)
fetch_from s none size copy = aborts
fetch_from s (some v) size copy = returns (fetch s v size copy (s.server v).sent_messages)

-- `read` of a client behind the wait.
pub client_read_resumed : Pipe → ℕ → Bool → ℕ → ℕ → Checked (Outcome × Pipe)
client_read_resumed s c is_terminated size copy =
    if is_terminated
    then returns (finished status_thread_is_terminating [], s)
    else (do assert (is_none (s.client c).thread); fetch_from s (s.client c).server size copy)
