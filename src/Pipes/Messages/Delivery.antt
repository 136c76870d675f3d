-- ===== src/Pipes/Messages/Delivery.antt =====
-- What a client writes into a named pipe and what its server reads, in kernel/namedpipe.cpp.
use ring3k.Prelude.{
  append_nil, append_assoc, ℕ, ◌≡◌, ◌≢◌, refl, ap, sym, ◌∙◌, subst, inl, inr, Bool, not, ◌&&◌,
  Bool-cases, Option, none, some, List, [], ◌∷◌, ◌++◌, arith,
}
use ring3k.Prelude.Checked.{Checked, returns, aborts, ◌>>=◌}
use ring3k.Completion.Put.{put_at}
use ring3k.Pipes.{is_connected, Pipe, Outcome, finished, blocked, set_server, start, start_thread}
use ring3k.Pipes.Messages.{
  part_of, server_read, server_read_resumed, wake_server, queue_message_from_client, write_to,
  client_write,
}
use ring3k.Pipes.Links.{HasLinks}
use ring3k.Pipes.Messages.Writing.{client_write-HasLinks}
use ring3k.Pipes.Messages.Exchange.{
  All, All-returns, All-map, server_read-HasLinks, server_read_resumed-HasLinks,
}
use ring3k.Pipes.Messages.Reading.{
  waiting, Reads, first, empty, waits, fails, server_read-Reads, server_read_resumed-Reads,
}
use ring3k.Status.{is_error, status_success, status_pipe_broken}

-- The writes of a client and the reads of its server in the order in which they happen: the messages
-- that were written, and what the reads came to.
pub data Talk (c v : ℕ) : Pipe → List (List ℕ) → List (ℕ × Outcome) → Pipe → Type 0 where
  ends : {s : Pipe} → Talk c v s [] [] s
  writes :
      {s s' : Pipe} {r : ℕ × Pipe} {written : List (List ℕ)} {reads : List (ℕ × Outcome)}
      (msg : List ℕ) (copy : ℕ)
      → client_write s c msg copy ≡ returns r
      → r.0 ≡ status_success
      → Talk c v r.1 written reads s'
      → Talk c v s (msg ∷ written) reads s'
  reads_or_waits :
      {s s' : Pipe} {written : List (List ℕ)} {reads : List (ℕ × Outcome)} (current size copy : ℕ)
      → Talk c v (server_read s v current size copy).1 written reads s'
      → Talk c v s written ((size, (server_read s v current size copy).0) ∷ reads) s'
  goes_on :
      {s s' : Pipe} {r : Outcome × Pipe} {written : List (List ℕ)} {reads : List (ℕ × Outcome)}
      (is_terminated : Bool) (size copy : ℕ)
      → server_read_resumed s v is_terminated size copy ≡ returns r
      → Talk c v r.1 written reads s'
      → Talk c v s written ((size, r.0) ∷ reads) s'

-- The reads gave just these messages, in order, each to one read and cut to the bytes it asked for.
pub data Answers : List (List ℕ) → List (ℕ × Outcome) → Type 0 where
  no_more : Answers [] []
  whole :
      {size : ℕ} {msg : List ℕ} {taken : List (List ℕ)} {reads : List (ℕ × Outcome)}
      → Answers taken reads
      → Answers (msg ∷ taken) ((size, finished status_success (part_of msg size)) ∷ reads)
  nothing :
      {size r : ℕ} {taken : List (List ℕ)} {reads : List (ℕ × Outcome)}
      → Answers taken reads
      → Answers taken ((size, finished r []) ∷ reads)
  blocks :
      {size : ℕ} {taken : List (List ℕ)} {reads : List (ℕ × Outcome)}
      → Answers taken reads
      → Answers taken ((size, blocked) ∷ reads)

-- One more read in front of the others.
answer :
    (size : ℕ) (msgs rest : List (List ℕ)) (o : Outcome) (written left : List (List ℕ))
    (reads : List (ℕ × Outcome))
    → Reads size msgs o rest
    → (taken : List (List ℕ)) × (rest ++ written ≡ taken ++ left) × Answers taken reads
    → (taken : List (List ℕ)) × (msgs ++ written ≡ taken ++ left)
      × Answers taken ((size, o) ∷ reads)
answer size msgs rest o written left reads (first {msg}) (taken, e, answers) =
    (msg ∷ taken, ap (λ l. msg ∷ l) e, whole answers)
answer size msgs rest o written left reads empty (taken, e, answers) = (taken, e, nothing answers)
answer size msgs rest o written left reads waits (taken, e, answers) = (taken, e, blocks answers)
answer size msgs rest o written left reads (fails h) (taken, e, answers) =
    (taken, e, nothing answers)

start_keeps : (s : Pipe) (v t : ℕ) → waiting (start s t) v ≡ waiting s v
start_keeps s v t = elim (Bool-cases (s.terminated t)) [ inl e ↦ rw e | inr e ↦ rw e ]

start_thread_keeps :
    (s : Pipe) (v t : ℕ) → All (start_thread s t) (λ s'. waiting s' v ≡ waiting s v)
unfolding All
start_thread_keeps s v t = elim (Bool-cases (not (s.terminated t) && s.running t)) [
  | inl e ↦ rw e tt
  | inr e ↦ rw e (start_keeps s v t)
]

wake_server_keeps :
    (s : Pipe) (v : ℕ) (t : Option ℕ) → All (wake_server s v t) (λ s'. waiting s' v ≡ waiting s v)
unfolding All
wake_server_keeps s v none = refl
wake_server_keeps s v (some t) =
    let server = record (s.server v) { thread = none } in
    let s' = set_server s v server in
    All-map (start_thread s' t) (λ a. waiting a v ≡ waiting s' v) (λ a. waiting a v ≡ waiting s v)
      (λ a h. h ∙ ap (λ x. x.received_messages) (put_at s.server v server))
      (start_thread_keeps s' v t)

queued :
    (s : Pipe) (v : ℕ) (msg : List ℕ)
    → All (queue_message_from_client s v msg) (λ s'. waiting s' v ≡ waiting s v ++ msg ∷ [])
unfolding queue_message_from_client All
queued s v msg = elim (Bool-cases (is_connected (s.server v).state)) [
  | inr e ↦ rw e tt
  | inl e ↦
      let server = s.server v in
      let received = record server { received_messages = server.received_messages ++ msg ∷ [] } in
      let s' = set_server s v received in
      rw e (
        All-map (wake_server s' v server.thread) (λ a. waiting a v ≡ waiting s' v)
          (λ a. waiting a v ≡ waiting s v ++ msg ∷ [])
          (λ a h. h ∙ ap (λ x. x.received_messages) (put_at s.server v received))
          (wake_server_keeps s' v server.thread))
]

broken : status_pipe_broken ≢ status_success
broken = omega arith

passes :
    (m : Checked Pipe) (P : Pipe → Type 0)
    → All m P
    → All {A = ℕ × Pipe}
        (m >>= λ s'. returns (status_success, s'))
        (λ r. r.0 ≡ status_success → P r.1)
unfolding All
passes (returns s') P h = λ e. h
passes aborts P h = tt

same_some : {a b : ℕ} → some a ≡ some b → a ≡ b
same_some h = cc h

write_lem :
    (s : Pipe) (v : ℕ) (msg : List ℕ) (copy : ℕ)
    → All
        (write_to s (some v) msg copy)
        (λ r. r.0 ≡ status_success → waiting r.1 v ≡ waiting s v ++ msg ∷ [])
unfolding All
write_lem s v msg copy = elim (Bool-cases (is_connected (s.server v).state)) [
  | inr e ↦ rw e (λ h. absurd (broken h))
  | inl e ↦ elim (Bool-cases (is_error copy)) [
    | inl e' ↦ rw (e, e') (λ h. cc (h, e'))
    | inr e' ↦ rw (e, e') (passes (queue_message_from_client s v msg) _ (queued s v msg))
  ]
]

-- A write that succeeds puts the message behind the others.
written_lem :
    (s : Pipe) (v : ℕ) (its : Option ℕ) (msg : List ℕ) (copy : ℕ)
    → its ≡ some v
    → All
        (write_to s its msg copy)
        (λ r. r.0 ≡ status_success → waiting r.1 v ≡ waiting s v ++ msg ∷ [])
unfolding All
written_lem s v none msg copy e = cc e
written_lem s v (some w) msg copy e =
    subst
      (λ n.
        All (write_to s (some w) msg copy)
          (λ r. r.0 ≡ status_success → waiting r.1 n ≡ waiting s n ++ msg ∷ []))
      (same_some e) (write_lem s w msg copy)

client_write_lem :
    (s : Pipe) (c v : ℕ) (msg : List ℕ) (copy : ℕ)
    → (s.client c).server ≡ some v
    → All
        (client_write s c msg copy)
        (λ r. r.0 ≡ status_success → waiting r.1 v ≡ waiting s v ++ msg ∷ [])
unfolding client_write
client_write_lem s c v msg copy e = written_lem s v (s.client c).server msg copy e

-- In any order of writes and reads that a client and its server do, blocked reads that go on
-- included: the messages that waited at first, with those that were written behind them, are the
-- messages that the reads gave, in order, each to one read and cut to its size, and then those that
-- wait at last.
pub Talk-Answers :
    (c v : ℕ) (s s' : Pipe) (written : List (List ℕ)) (reads : List (ℕ × Outcome))
    → Talk c v s written reads s'
    → (s.client c).server ≡ some v
    → (taken : List (List ℕ)) × (waiting s v ++ written ≡ taken ++ waiting s' v)
      × Answers taken reads
Talk-Answers c v s s' written reads ends its = ([], append_nil (waiting s v), no_more)
Talk-Answers c v s s' all reads (writes {r = r} {written = written} msg copy e ok talk) its =
    let links =
      All-returns (client_write s c msg copy) (λ q. HasLinks s q.1) r
        (client_write-HasLinks s c msg copy) e in
    let (taken, same, answers) =
      Talk-Answers c v r.1 s' written reads talk (links.server c ∙ its) in
    let grown =
      All-returns (client_write s c msg copy)
        (λ q. q.0 ≡ status_success → waiting q.1 v ≡ waiting s v ++ msg ∷ []) r
        (client_write_lem s c v msg copy its) e ok in
    (
      taken,
      sym (append_assoc (waiting s v) (msg ∷ []) written)
          ∙ ap (λ l. l ++ written) (sym grown)
          ∙ same,
      answers,
    )
Talk-Answers c v s s' written reads (reads_or_waits {reads = later} current size copy talk) its =
    let r = server_read s v current size copy in
    answer size (waiting s v) (waiting r.1 v) r.0 written (waiting s' v) later
      (server_read-Reads s v current size copy)
      (Talk-Answers c v r.1 s' written later talk
        ((server_read-HasLinks s v current size copy).server c ∙ its))
Talk-Answers c v s s' written reads (goes_on {r = r} {reads = later} end size copy e talk) its =
    let links =
      All-returns (server_read_resumed s v end size copy) (λ q. HasLinks s q.1) r
        (server_read_resumed-HasLinks s v end size copy) e in
    answer size (waiting s v) (waiting r.1 v) r.0 written (waiting s' v) later
      (All-returns (server_read_resumed s v end size copy)
        (λ q. Reads size (waiting s v) q.0 (waiting q.1 v)) r
        (server_read_resumed-Reads s v end size copy) e)
      (Talk-Answers c v r.1 s' written later talk (links.server c ∙ its))
