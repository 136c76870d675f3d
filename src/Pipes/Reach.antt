-- ===== src/Pipes/Reach.antt =====
-- The states of a named pipe that its operations lead to, in kernel/namedpipe.cpp.
use ring3k.Prelude.{ℕ, ◌<◌, ◌≡◌, refl, sym, ◌∙◌, subst, Bool, true, false, none, List, [], arith}
use ring3k.Prelude.Checked.{returns}
use ring3k.Completion.{is_linked}
use ring3k.Pipes.{
  Pipe, Outcome, new_server, new_client, create_server, close_server, create_client, connect,
  disconnect, word_mod, terminate, set_client_of,
}
use ring3k.Pipes.Messages.{
  server_read, server_read_resumed, server_write, client_read, client_read_resumed, client_write,
}
use ring3k.Pipes.Links.{IsPaired, HasLinks, terminate-HasLinks, HasLinks-IsPaired}
use ring3k.Pipes.Meet.{connect-IsPaired, client_added, same_returns}
use ring3k.Pipes.Calls.{
  create_client-IsPaired, create_server-IsPaired, close_server-IsPaired, disconnect_lem,
}
use ring3k.Pipes.Messages.Writing.{server_write-HasLinks, client_write-HasLinks}
use ring3k.Pipes.Messages.Exchange.{
  All-returns, server_read-HasLinks, server_read_resumed-HasLinks, client_read-HasLinks,
  client_read_resumed-HasLinks,
}

-- A pipe that was just made.
abbrev pub new_pipe : ℕ → Pipe
new_pipe max = record {
  servers = [];
  clients = [];
  num_instances = 0;
  max_instances = max;
  server = λ v. new_server;
  client = λ c. new_client;
  running = λ t. true;
  terminated = λ t. false;
}

-- One call of an operation, in whatever thread, that returns or blocks; a blocked call goes on at
-- any later time; or the end of a thread. New objects have no links. Closing a server or a client
-- that is connected is no step: it leaves a pointer to freed memory at the other end.
pub data Step (s : Pipe) : Pipe → Type 0 where
  creates_server : (v max : ℕ) → (s.server v).client ≡ none → Step s (create_server s v max).1
  closes_server :
      (v : ℕ)
      → is_linked s.servers v ≡ true
      → (s.server v).client ≡ none
      → Step s (close_server s v)
  creates_client :
      (c : ℕ) (s' : Pipe) → (s.client c).server ≡ none → create_client s c ≡ returns s' → Step s s'
  closes_client : (c : ℕ) → (s.client c).server ≡ none → Step s (set_client_of s c new_client)
  terminates : (t : ℕ) → Step s (terminate s t)
  connects : (v current : ℕ) → Step s (connect s v current).1
  disconnects : (v : ℕ) (r : ℕ × Pipe) → disconnect s v ≡ returns r → Step s r.1
  server_reads : (v current size copy : ℕ) → Step s (server_read s v current size copy).1
  server_goes_on :
      (v : ℕ) (is_terminated : Bool) (size copy : ℕ) (r : Outcome × Pipe)
      → server_read_resumed s v is_terminated size copy ≡ returns r
      → Step s r.1
  server_writes :
      (v : ℕ) (msg : List ℕ) (copy : ℕ) (r : ℕ × Pipe)
      → server_write s v msg copy ≡ returns r
      → Step s r.1
  client_reads : (c current size copy : ℕ) → Step s (client_read s c current size copy).1
  client_goes_on :
      (c : ℕ) (is_terminated : Bool) (size copy : ℕ) (r : Outcome × Pipe)
      → client_read_resumed s c is_terminated size copy ≡ returns r
      → Step s r.1
  client_writes :
      (c : ℕ) (msg : List ℕ) (copy : ℕ) (r : ℕ × Pipe)
      → client_write s c msg copy ≡ returns r
      → Step s r.1

pub data Reached (max : ℕ) : Pipe → Type 0 where
  starts : Reached max (new_pipe max)
  steps : {s s' : Pipe} → Reached max s → Step s s' → Reached max s'

new_pipe-IsPaired : (max : ℕ) → max < word_mod → IsPaired (new_pipe max)
new_pipe-IsPaired max small = record {
  forth = λ v c h. cc h;
  back = λ c v h. cc h;
  linked = λ v h. cc h;
  waiting = λ v h. cc h;
  unlisted = refl;
  counted = refl;
  bounded = omega arith;
  word = small;
}

Step-IsPaired : (s s' : Pipe) → Step s s' → IsPaired s → IsPaired s'
Step-IsPaired s s' (creates_server v max free) paired = create_server-IsPaired s paired v max free
Step-IsPaired s s' (closes_server v there free) paired = close_server-IsPaired s paired v there free
Step-IsPaired s s' (creates_client c after free e) paired =
    create_client-IsPaired s paired c after free e
Step-IsPaired s s' (closes_client c free) paired = client_added s paired c free
Step-IsPaired s s' (terminates t) paired = HasLinks-IsPaired s s' (terminate-HasLinks s t) paired
Step-IsPaired s s' (connects v current) paired = connect-IsPaired s paired v current
Step-IsPaired s s' (disconnects v r e) paired =
    let (r', e', paired') = disconnect_lem s paired v in
    subst (λ q. IsPaired q.1) (same_returns (sym e' ∙ e)) paired'
Step-IsPaired s s' (server_reads v current size copy) paired =
    HasLinks-IsPaired s s' (server_read-HasLinks s v current size copy) paired
Step-IsPaired s s' (server_goes_on v end size copy r e) paired =
    HasLinks-IsPaired s s'
      (All-returns (server_read_resumed s v end size copy) (λ q. HasLinks s q.1) r
        (server_read_resumed-HasLinks s v end size copy) e)
      paired
Step-IsPaired s s' (server_writes v msg copy r e) paired =
    HasLinks-IsPaired s s'
      (All-returns (server_write s v msg copy) (λ q. HasLinks s q.1) r
        (server_write-HasLinks s v msg copy) e)
      paired
Step-IsPaired s s' (client_reads c current size copy) paired =
    HasLinks-IsPaired s s' (client_read-HasLinks s c current size copy) paired
Step-IsPaired s s' (client_goes_on c end size copy r e) paired =
    HasLinks-IsPaired s s'
      (All-returns (client_read_resumed s c end size copy) (λ q. HasLinks s q.1) r
        (client_read_resumed-HasLinks s c end size copy) e)
      paired
Step-IsPaired s s' (client_writes c msg copy r e) paired =
    HasLinks-IsPaired s s'
      (All-returns (client_write s c msg copy) (λ q. HasLinks s q.1) r
        (client_write-HasLinks s c msg copy) e)
      paired

-- In every state that the operations lead to from a pipe that was just made, as long as no server
-- or client is closed while it is connected and new ones start without links, a server has a client
-- exactly while it is connected and the two point at each other, a server that waits for a client
-- has a thread, and the count of the servers is right and at most the maximum. The maximum must be
-- below 2^32.
pub Reached-IsPaired : (max : ℕ) → max < word_mod → (s : Pipe) → Reached max s → IsPaired s
Reached-IsPaired max small s starts = new_pipe-IsPaired max small
Reached-IsPaired max small s (steps {s = before} reached step) =
    Step-IsPaired before s step (Reached-IsPaired max small before reached)
