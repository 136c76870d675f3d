-- ===== src/Pipes.antt =====
-- kernel/namedpipe.cpp: the servers and clients of a named pipe. A server, a client or a thread is a
-- number, and a null pointer is none; using one as an object stops the kernel. A call that waits is
-- split at `current->wait()`: the first part gives `blocked`, the part behind it is a function of
-- its own. The status of copying from or to the client is an argument.
pub mod Messages
pub mod Links
pub mod Joins
pub mod Meet
pub mod Calls
pub mod Reach
mod Tests
use package.ring3k.Prelude.{
  ℕ, suc, ◌+◌, ◌-◌, ◌%◌, ◌^◌, Bool, true, false, not, leb, ◌==◌, ◌&&◌, if◌then◌else◌, Option, none,
  some, List, [], ◌∷◌, ◌++◌, length, min,
}
use package.ring3k.Prelude.Checked.{Checked, returns, aborts, assert, ◌>>=◌, ◌>>◌}
use package.ring3k.Completion.{put, is_none, unlink}
use package.ring3k.Status.{
  is_error, status_success, status_invalid_parameter, status_access_denied, status_pipe_broken,
  status_pipe_busy, status_pipe_connected, status_thread_is_terminating,
}

pub data PipeState : Type 0 where
  pipe_idle : PipeState
  pipe_wait_connect : PipeState
  pipe_connected : PipeState
  pipe_wait_disconnect : PipeState
  pipe_disconnected : PipeState

abbrev pub is_idle : PipeState → Bool
is_idle pipe_idle = true
is_idle pipe_wait_connect = false
is_idle pipe_connected = false
is_idle pipe_wait_disconnect = false
is_idle pipe_disconnected = false

abbrev pub is_awaiting_connect : PipeState → Bool
is_awaiting_connect pipe_idle = false
is_awaiting_connect pipe_wait_connect = true
is_awaiting_connect pipe_connected = false
is_awaiting_connect pipe_wait_disconnect = false
is_awaiting_connect pipe_disconnected = false

abbrev pub is_connected : PipeState → Bool
is_connected pipe_idle = false
is_connected pipe_wait_connect = false
is_connected pipe_connected = true
is_connected pipe_wait_disconnect = false
is_connected pipe_disconnected = false

-- `pipe_server_t`; a message is the list of its bytes.
pub record Server : Type 0 where
  pub state : PipeState
  pub client : Option ℕ
  pub thread : Option ℕ
  pub received_messages : List (List ℕ)
  pub sent_messages : List (List ℕ)

-- `pipe_client_t`.
pub record Client : Type 0 where
  pub server : Option ℕ
  pub thread : Option ℕ

-- `pipe_container_t`, with the servers and clients, which threads run and which are terminated.
pub record Pipe : Type 0 where
  pub servers : List ℕ
  pub clients : List ℕ
  pub num_instances : ℕ
  pub max_instances : ℕ
  pub server : ℕ → Server
  pub client : ℕ → Client
  pub running : ℕ → Bool
  pub terminated : ℕ → Bool

abbrev pub new_server : Server
new_server = record {
  state = pipe_idle;
  client = none;
  thread = none;
  received_messages = [];
  sent_messages = [];
}

abbrev pub new_client : Client
new_client = record { server = none; thread = none }

abbrev pub set_server : Pipe → ℕ → Server → Pipe
set_server s v server = record s { server = put s.server v server }

abbrev pub set_client_of : Pipe → ℕ → Client → Pipe
set_client_of s c client = record s { client = put s.client c client }

-- The thread runs, unless it is terminated.
abbrev pub start : Pipe → ℕ → Pipe
start s thread = if s.terminated thread then s else record s { running = put s.running thread true }

-- `start` of a thread: unless it is terminated, it must not run already.
abbrev pub start_thread : Pipe → ℕ → Checked Pipe
start_thread s thread =
    if not (s.terminated thread) && s.running thread then aborts else returns (start s thread)

abbrev pub stop : Pipe → ℕ → Pipe
stop s thread = record s { running = put s.running thread false }

-- What `set_state` of a thread that is terminated changes here.
abbrev pub terminate : Pipe → ℕ → Pipe
terminate s thread = record s { terminated = put s.terminated thread true }

pub create_server : Pipe → ℕ → ℕ → ℕ × Pipe
create_server s v max_inst =
    if not (max_inst == s.max_instances)
    then (status_invalid_parameter, s)
    else if leb s.max_instances s.num_instances
    then (status_access_denied, s)
    else (
      status_success,
      record s {
        num_instances = s.num_instances + 1;
        servers = s.servers ++ v ∷ [];
        server = put s.server v new_server;
      },
    )

abbrev pub word_mod : ℕ
word_mod = 2 ^ 32

-- `~pipe_server_t`, which takes the server off the list of its container (and its
-- reference to that, which is not modelled). The server is gone: its
-- number stands for a new object from then on. A client that it was connected to keeps its pointer
-- to the freed object; what happens after that is not modelled.
pub close_server : Pipe → ℕ → Pipe
close_server s v = record s {
  server = put s.server v new_server;
  servers = unlink s.servers v;
  num_instances = (s.num_instances + word_mod - 1) % word_mod;
}

pub set_client : Pipe → ℕ → ℕ → Pipe
set_client s v c =
    let s' = set_client_of s c (record (s.client c) { server = some v }) in
    set_server s' v (record (s.server v) { client = some c; state = pipe_connected })

pub find_idle : (ℕ → Server) → List ℕ → Option ℕ
find_idle server [] = none
find_idle server (v ∷ rest) =
    if is_awaiting_connect (server v).state then some v else find_idle server rest

pub find_idle_server : Pipe → Option ℕ
unfolding find_idle
find_idle_server s = find_idle s.server s.servers

-- The thread of the server starts; without one the code uses a null pointer.
abbrev pub start_server : Pipe → ℕ → Option ℕ → Checked Pipe
start_server s v none = aborts
start_server s v (some thread) =
    start_thread (set_server s v (record (s.server v) { thread = none })) thread

-- `create_client` after the search for a server.
pub meet : Pipe → ℕ → Option ℕ → Checked Pipe
meet s c none = returns s
meet s c (some v) = start_server (set_client s v c) v (s.server v).thread

pub create_client : Pipe → ℕ → Checked Pipe
create_client s c = let s' = set_client_of s c new_client in meet s' c (find_idle_server s')

-- The loop of `do_connect`.
pub connect_first : Pipe → ℕ → List ℕ → Pipe
connect_first s v [] = s
connect_first s v (c ∷ rest) =
    if is_none (s.client c).server then set_client s v c else connect_first s v rest

pub do_connect : Pipe → ℕ → Pipe
do_connect s v = connect_first s v s.clients

-- What a call comes to before it waits.
pub data Outcome : Type 0 where
  finished : ℕ → List ℕ → Outcome
  blocked : Outcome

abbrev pub wait_on : Pipe → ℕ → ℕ → Outcome × Pipe
wait_on s v current =
    (blocked, stop (set_server s v (record (s.server v) { thread = some current })) current)

pub connect : Pipe → ℕ → ℕ → Outcome × Pipe
connect s v current =
    let s' = do_connect (set_server s v (record (s.server v) { state = pipe_wait_connect })) v in
    if not (is_idle (s.server v).state)
    then (finished status_pipe_connected [], s)
    else if is_connected (s'.server v).state
    then (finished status_success [], s')
    else wait_on s' v current

-- `connect` behind the wait.
pub connect_resumed : Pipe → ℕ → Bool → Checked ℕ
connect_resumed s v is_terminated =
    if is_terminated then returns status_thread_is_terminating else (do
      assert (is_none (s.server v).thread)
      assert (is_connected (s.server v).state)
      returns status_success)

abbrev pub leave : Pipe → ℕ → Option ℕ → Checked (ℕ × Pipe)
leave s v none = aborts
leave s v (some c) =
    let s' = set_client_of s c (record (s.client c) { server = none }) in
    returns (
      status_success,
      set_server s' v (record (s.server v) { client = none; state = pipe_disconnected }),
    )

pub disconnect : Pipe → ℕ → Checked (ℕ × Pipe)
disconnect s v =
    if not (is_connected (s.server v).state)
    then returns (status_pipe_broken, s)
    else leave s v (s.server v).client
