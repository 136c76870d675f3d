-- ===== src/Pipes/Links.antt =====
-- The pointers between the servers and clients of a named pipe, in kernel/namedpipe.cpp.
use ring3k.Prelude.{
  ℕ, ◌≤◌, ◌<◌, ◌≡◌, refl, ap, sym, ◌∙◌, inl, inr, Bool, Bool-cases, true, false, some, [], length,
  arith,
}
use ring3k.Completion.{put, is_none}
use ring3k.Completion.Put.{put_else, put_same}
use ring3k.Pipes.{
  is_awaiting_connect, is_connected, Server, Client, Pipe, set_server, set_client_of, start, stop,
  terminate, word_mod,
}

-- A server has a client exactly while it is connected, and each of the two points at the other; a
-- server that waits for a client has a thread; no client is listed; and the count of the servers
-- is right.
pub record IsPaired (s : Pipe) : Type 0 where
  pub forth :
      (v c : ℕ)
      → (s.server v).client ≡ some c
      → (is_connected (s.server v).state ≡ true) × ((s.client c).server ≡ some v)
  pub back : (c v : ℕ) → (s.client c).server ≡ some v → (s.server v).client ≡ some c
  pub linked :
      (v : ℕ) → is_connected (s.server v).state ≡ true → is_none (s.server v).client ≡ false
  pub waiting :
      (v : ℕ) → is_awaiting_connect (s.server v).state ≡ true → is_none (s.server v).thread ≡ false
  pub unlisted : s.clients ≡ []
  pub counted : s.num_instances ≡ length s.servers
  pub bounded : s.num_instances ≤ s.max_instances
  pub word : s.max_instances < word_mod

-- The same links, and the same threads of the servers that wait for a client.
pub record HasLinks (s s' : Pipe) : Type 0 where
  pub state : (v : ℕ) → (s'.server v).state ≡ (s.server v).state
  pub client : (v : ℕ) → (s'.server v).client ≡ (s.server v).client
  pub server : (c : ℕ) → (s'.client c).server ≡ (s.client c).server
  pub thread :
      (v : ℕ)
      → is_awaiting_connect (s.server v).state ≡ true
      → (s'.server v).thread ≡ (s.server v).thread
  pub clients : s'.clients ≡ s.clients
  pub servers : s'.servers ≡ s.servers
  pub num : s'.num_instances ≡ s.num_instances
  pub max : s'.max_instances ≡ s.max_instances

pub HasLinks-IsPaired : (s s' : Pipe) → HasLinks s s' → IsPaired s → IsPaired s'
HasLinks-IsPaired s s' same paired = record {
  forth = λ v c h.
      let (on, at) = paired.forth v c (sym (same.client v) ∙ h) in
      (ap is_connected (same.state v) ∙ on, same.server c ∙ at);
  back = λ c v h. same.client v ∙ paired.back c v (sym (same.server c) ∙ h);
  linked = λ v h.
      ap is_none (same.client v) ∙ paired.linked v (ap is_connected (sym (same.state v)) ∙ h);
  waiting = λ v h.
      let h' = ap is_awaiting_connect (sym (same.state v)) ∙ h in
      ap is_none (same.thread v h') ∙ paired.waiting v h';
  unlisted = same.clients ∙ paired.unlisted;
  counted = same.num ∙ paired.counted ∙ ap length (sym same.servers);
  bounded = omega (arith, same.num, same.max, paired.bounded);
  word = omega (arith, same.max, paired.word);
}

pub HasLinks-refl : (s : Pipe) → HasLinks s s
HasLinks-refl s = record {
  state = λ v. refl;
  client = λ v. refl;
  server = λ c. refl;
  thread = λ v h. refl;
  clients = refl;
  servers = refl;
  num = refl;
  max = refl;
}

pub HasLinks-trans : (a b c : Pipe) → HasLinks a b → HasLinks b c → HasLinks a c
HasLinks-trans a b c ab bc = record {
  state = λ v. bc.state v ∙ ab.state v;
  client = λ v. bc.client v ∙ ab.client v;
  server = λ n. bc.server n ∙ ab.server n;
  thread = λ v h. bc.thread v (ap is_awaiting_connect (ab.state v) ∙ h) ∙ ab.thread v h;
  clients = bc.clients ∙ ab.clients;
  servers = bc.servers ∙ ab.servers;
  num = bc.num ∙ ab.num;
  max = bc.max ∙ ab.max;
}

-- A write to a connected server that keeps its links.
pub set_server-HasLinks :
    (s : Pipe) (v : ℕ) (server : Server)
    → is_awaiting_connect (s.server v).state ≡ false
    → server.state ≡ (s.server v).state
    → server.client ≡ (s.server v).client
    → HasLinks s (set_server s v server)
set_server-HasLinks s v server apart st cl = record {
  state = λ n. put_same (λ x. x.state) s.server v n server st;
  client = λ n. put_same (λ x. x.client) s.server v n server cl;
  server = λ c. refl;
  thread = λ n h.
      ap (λ x. x.thread)
        (put_else s.server v n server
          (λ e. cc (ap (λ m. is_awaiting_connect (s.server m).state) e, h, apart)));
  clients = refl;
  servers = refl;
  num = refl;
  max = refl;
}

-- A write to a client that keeps its server.
pub set_client_of-HasLinks :
    (s : Pipe) (c : ℕ) (client : Client)
    → client.server ≡ (s.client c).server
    → HasLinks s (set_client_of s c client)
set_client_of-HasLinks s c client e = record {
  state = λ n. refl;
  client = λ n. refl;
  server = λ n. put_same (λ x. x.server) s.client c n client e;
  thread = λ n h. refl;
  clients = refl;
  servers = refl;
  num = refl;
  max = refl;
}

-- Threads start and stop beside the links.
running-HasLinks : (s : Pipe) (running : ℕ → Bool) → HasLinks s (record s { running = running })
running-HasLinks s running = record {
  state = λ v. refl;
  client = λ v. refl;
  server = λ c. refl;
  thread = λ v h. refl;
  clients = refl;
  servers = refl;
  num = refl;
  max = refl;
}

pub start-HasLinks : (s : Pipe) (t : ℕ) → HasLinks s (start s t)
start-HasLinks s t = elim (Bool-cases (s.terminated t)) [
  | inl e ↦ rw e (HasLinks-refl s)
  | inr e ↦ rw e (running-HasLinks s (put s.running t true))
]

pub stop-HasLinks : (s : Pipe) (t : ℕ) → HasLinks s (stop s t)
stop-HasLinks s t = running-HasLinks s (put s.running t false)

-- A thread is terminated beside the links.
pub terminate-HasLinks : (s : Pipe) (t : ℕ) → HasLinks s (terminate s t)
terminate-HasLinks s t = record {
  state = λ v. refl;
  client = λ v. refl;
  server = λ c. refl;
  thread = λ v h. refl;
  clients = refl;
  servers = refl;
  num = refl;
  max = refl;
}

-- A write to a server that keeps its links and its thread.
pub set_queue-HasLinks :
    (s : Pipe) (v : ℕ) (server : Server)
    → server.state ≡ (s.server v).state
    → server.client ≡ (s.server v).client
    → server.thread ≡ (s.server v).thread
    → HasLinks s (set_server s v server)
set_queue-HasLinks s v server st cl th = record {
  state = λ n. put_same (λ x. x.state) s.server v n server st;
  client = λ n. put_same (λ x. x.client) s.server v n server cl;
  server = λ c. refl;
  thread = λ n h. put_same (λ x. x.thread) s.server v n server th;
  clients = refl;
  servers = refl;
  num = refl;
  max = refl;
}
