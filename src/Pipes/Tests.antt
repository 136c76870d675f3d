-- ===== src/Pipes/Tests.antt =====
-- A server and a client of a named pipe.
use ring3k.Prelude.{
  ℕ, ◌≡◌, refl, inl, inr, false, not, ◌&&◌, ◌==◌, Bool-cases, subst, Option, List, [], ◌∷◌, ◌++◌,
  arith,
}
use ring3k.Prelude.Checked.{Checked, returns, aborts}
use ring3k.Pipes.{
  Pipe, Outcome, create_server, connect, create_client, find_idle_server, find_idle, set_client,
  meet, do_connect, connect_first,
}
use ring3k.Pipes.Messages.{client_write, server_read, queue_message_from_client}
use ring3k.Pipes.Links.{IsPaired}
use ring3k.Pipes.Meet.{Returns, IsMet, FirstWaiting, AreStopped}
use ring3k.Pipes.Calls.{create_client_lem}
use ring3k.Pipes.Reach.{new_pipe, Step, Reached, Reached-IsPaired}
use ring3k.Pipes.Messages.Reading.{waiting}
use ring3k.Pipes.Messages.Delivery.{Talk, Answers, Talk-Answers}

-- A server 5 whose thread 7 waits for a client.
abbrev with_server : Pipe
with_server = (connect (create_server (new_pipe 1) 5 1).1 5 7).1

with_server-Reached : Reached 1 with_server
unfolding create_server
with_server-Reached =
    Reached.steps (Reached.steps Reached.starts (Step.creates_server 5 1 refl)) (Step.connects 5 7)

with_server-IsPaired : IsPaired with_server
with_server-IsPaired = Reached-IsPaired 1 (omega arith) with_server with_server-Reached

with_server-AreStopped : AreStopped with_server
unfolding AreStopped create_server connect do_connect connect_first
with_server-AreStopped v t h at = elim (Bool-cases (5 == v)) [
  | inl e ↦
      let its : 7 ≡ t = cc (rw e at at) in
      subst (λ k. not (with_server.terminated k) && with_server.running k ≡ false) its refl
  | inr e ↦ cc (rw e at h)
]

create_client_lem_example : Returns (create_client with_server 6) (λ s'.
    (found : Option ℕ) × FirstWaiting with_server.server with_server.servers found
    × IsMet with_server s' 6 found)
unfolding create_server connect do_connect connect_first
create_client_lem_example =
    create_client_lem with_server with_server-IsPaired 6 refl with_server-AreStopped

abbrev result : Checked Pipe → Pipe
result (returns s) = s
result aborts = new_pipe 0

-- The client 6 is connected to the server 5.
abbrev with_client : Pipe
with_client = result (create_client with_server 6)

with_client-Reached : Reached 1 with_client
unfolding create_client create_server connect do_connect connect_first find_idle_server find_idle
    set_client meet
with_client-Reached =
    Reached.steps with_server-Reached (Step.creates_client 6 with_client refl refl)

Reached-IsPaired_example : IsPaired with_client
Reached-IsPaired_example = Reached-IsPaired 1 (omega arith) with_client with_client-Reached

abbrev message : List ℕ
message = 10 ∷ 11 ∷ 12 ∷ []

abbrev write_result : Checked (ℕ × Pipe) → ℕ × Pipe
write_result (returns r) = r
write_result aborts = (1, new_pipe 0)

abbrev with_message : ℕ × Pipe
with_message = write_result (client_write with_client 6 message 0)

abbrev after_read : Outcome × Pipe
after_read = server_read with_message.1 5 7 2 0

talk : Talk 6 5 with_client (message ∷ []) ((2, after_read.0) ∷ []) after_read.1
unfolding client_write queue_message_from_client create_client create_server connect do_connect
    connect_first find_idle_server find_idle set_client meet
talk = Talk.writes message 0 refl refl (Talk.reads_or_waits 7 2 0 Talk.ends)

Talk-Answers_example :
    (taken : List (List ℕ)) × (waiting with_client 5 ++ message ∷ []
      ≡ taken ++ waiting after_read.1 5)
    × Answers taken ((2, after_read.0) ∷ [])
unfolding create_client create_server connect do_connect connect_first find_idle_server find_idle
    set_client meet
Talk-Answers_example =
    Talk-Answers 6 5 with_client after_read.1 (message ∷ []) ((2, after_read.0) ∷ []) talk refl
