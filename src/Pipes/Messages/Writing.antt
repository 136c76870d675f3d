-- ===== src/Pipes/Messages/Writing.antt =====
-- The links of a named pipe of kernel/namedpipe.cpp when it is written to.
use ring3k.Prelude.{
  ℕ, ◌≡◌, refl, ap, ◌∙◌, inl, inr, true, not, ◌&&◌, Bool-cases, Option, none, some, List, [], ◌∷◌,
  ◌++◌,
}
use ring3k.Prelude.Checked.{Checked, returns, aborts, ◌>>=◌}
use ring3k.Completion.Put.{put_at}
use ring3k.Pipes.{is_connected, Pipe, set_server, set_client_of, start, start_thread}
use ring3k.Pipes.Messages.{
  wake_client, wake_client_of, queue_message_to_client, server_write, wake_server,
  queue_message_from_client, write_to, client_write,
}
use ring3k.Pipes.Links.{
  HasLinks, HasLinks-refl, HasLinks-trans, set_server-HasLinks, set_queue-HasLinks,
  set_client_of-HasLinks, start-HasLinks,
}
use ring3k.Status.{is_error, status_success, status_pipe_broken}
use ring3k.Pipes.Messages.Exchange.{All, All-map, connected_apart}

module _ (s : Pipe) where
  start_thread-HasLinks :
      (s' : Pipe) (t : ℕ) → HasLinks s s' → All (start_thread s' t) (λ s''. HasLinks s s'')
  unfolding All
  start_thread-HasLinks s' t links = elim (Bool-cases (not (s'.terminated t) && s'.running t)) [
    | inl e ↦ rw e tt
    | inr e ↦ rw e (HasLinks-trans s s' (start s' t) links (start-HasLinks s' t))
  ]

  wake_client-HasLinks : (c : ℕ) (t : Option ℕ) → All (wake_client s c t) (λ s'. HasLinks s s')
  unfolding All
  wake_client-HasLinks c none = HasLinks-refl s
  wake_client-HasLinks c (some t) =
      start_thread-HasLinks (set_client_of s c (record (s.client c) { thread = none })) t
        (set_client_of-HasLinks s c (record (s.client c) { thread = none }) refl)

  wake_server-HasLinks :
      (v : ℕ) (t : Option ℕ)
      → is_connected (s.server v).state ≡ true
      → All (wake_server s v t) (λ s'. HasLinks s s')
  unfolding All
  wake_server-HasLinks v none on = HasLinks-refl s
  wake_server-HasLinks v (some t) on =
      start_thread-HasLinks (set_server s v (record (s.server v) { thread = none })) t (
        set_server-HasLinks s v (record (s.server v) { thread = none })
          (connected_apart (s.server v).state on) refl refl)

wake_client_of-HasLinks :
    (s : Pipe) (its : Option ℕ) → All (wake_client_of s its) (λ s'. HasLinks s s')
unfolding All
wake_client_of-HasLinks s none = tt
wake_client_of-HasLinks s (some c) = wake_client-HasLinks s c (s.client c).thread

module _ (s : Pipe) where
  All-bind :
      (m : Checked Pipe) (P : Pipe → Type 0) (Q : ℕ × Pipe → Type 0) (r : ℕ)
      → ((s' : Pipe) → P s' → Q (r, s'))
      → All m P
      → All (m >>= λ s'. returns (r, s')) Q
  unfolding All
  All-bind (returns s') P Q r f h = f s' h
  All-bind aborts P Q r f h = tt

  All-same : (r : ℕ) → All {A = ℕ × Pipe} (returns (r, s)) (λ p. HasLinks s p.1)
  unfolding All
  All-same r = HasLinks-refl s

  All-success :
      (m : Checked Pipe)
      → All m (λ s'. HasLinks s s')
      → All {A = ℕ × Pipe} (m >>= λ s'. returns (status_success, s')) (λ r. HasLinks s r.1)
  All-success m h =
      All-bind m (λ s'. HasLinks s s') (λ r. HasLinks s r.1) status_success (λ s' links. links) h

  queue_message_to_client-HasLinks :
      (v : ℕ) (msg : List ℕ) → All (queue_message_to_client s v msg) (λ s'. HasLinks s s')
  unfolding queue_message_to_client All
  queue_message_to_client-HasLinks v msg = elim (Bool-cases (is_connected (s.server v).state)) [
    | inr e ↦ rw e tt
    | inl e ↦
        let server = s.server v in
        let sent = record server { sent_messages = server.sent_messages ++ msg ∷ [] } in
        let s' = set_server s v sent in
        rw e (
          All-map (wake_client_of s' server.client) (λ a. HasLinks s' a) (λ a. HasLinks s a)
            (λ a h. HasLinks-trans s s' a (set_queue-HasLinks s v sent refl refl refl) h)
            (wake_client_of-HasLinks s' server.client))
  ]

  pub server_write-HasLinks :
      (v : ℕ) (msg : List ℕ) (copy : ℕ) → All (server_write s v msg copy) (λ r. HasLinks s r.1)
  unfolding server_write
  server_write-HasLinks v msg copy = elim (Bool-cases (is_error copy)) [
    | inl e ↦ rw e (All-same copy)
    | inr e ↦
        rw e
          (All-success (queue_message_to_client s v msg) (queue_message_to_client-HasLinks v msg))
  ]

  queue_message_from_client-HasLinks :
      (v : ℕ) (msg : List ℕ) → All (queue_message_from_client s v msg) (λ s'. HasLinks s s')
  unfolding queue_message_from_client All
  queue_message_from_client-HasLinks v msg = elim (Bool-cases (is_connected (s.server v).state)) [
    | inr e ↦ rw e tt
    | inl e ↦
        let server = s.server v in
        let received = record server { received_messages = server.received_messages ++ msg ∷ [] } in
        let s' = set_server s v received in
        let on = ap (λ x. is_connected x.state) (put_at s.server v received) ∙ e in
        rw e (
          All-map (wake_server s' v server.thread) (λ a. HasLinks s' a) (λ a. HasLinks s a)
            (λ a h. HasLinks-trans s s' a (set_queue-HasLinks s v received refl refl refl) h)
            (wake_server-HasLinks s' v server.thread on))
  ]

  write_to-HasLinks :
      (its : Option ℕ) (msg : List ℕ) (copy : ℕ)
      → All (write_to s its msg copy) (λ r. HasLinks s r.1)
  write_to-HasLinks none msg copy = All-same status_pipe_broken
  write_to-HasLinks (some v) msg copy = elim (Bool-cases (is_connected (s.server v).state)) [
    | inr e ↦ rw e (All-same status_pipe_broken)
    | inl e ↦ elim (Bool-cases (is_error copy)) [
      | inl e' ↦ rw (e, e') (All-same copy)
      | inr e' ↦
          rw (e, e')
            (All-success (queue_message_from_client s v msg)
              (queue_message_from_client-HasLinks v msg))
    ]
  ]

  pub client_write-HasLinks :
      (c : ℕ) (msg : List ℕ) (copy : ℕ) → All (client_write s c msg copy) (λ r. HasLinks s r.1)
  unfolding client_write
  client_write-HasLinks c msg copy = write_to-HasLinks (s.client c).server msg copy
