-- ===== src/Pipes/Messages/Exchange.antt =====
-- The links of a named pipe of kernel/namedpipe.cpp when it is read.
use ring3k.Prelude.{
  ℕ, ◌≡◌, refl, sym, subst, inl, inr, Bool, true, false, Bool-cases, Option, none, some, List, [],
  ◌∷◌,
}
use ring3k.Prelude.Checked.{Checked, returns, aborts}
use ring3k.Completion.{is_none}
use ring3k.Pipes.{
  PipeState, pipe_idle, pipe_wait_connect, pipe_connected, pipe_wait_disconnect, pipe_disconnected,
  is_awaiting_connect, is_connected, Pipe, set_server, set_client_of, stop,
}
use ring3k.Pipes.Messages.{
  receive, receive_or_wait, server_read, server_read_resumed, fetch, fetch_or_wait, read_from,
  client_read, fetch_from, client_read_resumed,
}
use ring3k.Pipes.Links.{
  HasLinks, HasLinks-refl, HasLinks-trans, set_server-HasLinks, set_queue-HasLinks,
  set_client_of-HasLinks, stop-HasLinks,
}
use ring3k.Status.{is_error}

-- If the kernel goes on, then the predicate holds of the result.
unfoldable pub All : {A : Type 0} → Checked A → (A → Type 0) → Type 0
All (returns a) P = P a
All aborts P = Unit {0}

pub All-returns :
    {A : Type 0} (m : Checked A) (P : A → Type 0) (a : A) → All m P → m ≡ returns a → P a
unfolding All
All-returns m P a h e = subst (λ c. All c P) e h

pub All-map :
    {A : Type 0} (m : Checked A) (P Q : A → Type 0) → ((a : A) → P a → Q a) → All m P → All m Q
unfolding All
All-map (returns a) P Q f h = f a h
All-map aborts P Q f h = tt

pub connected_apart : (st : PipeState) → is_connected st ≡ true → is_awaiting_connect st ≡ false
connected_apart pipe_idle h = refl
connected_apart pipe_wait_connect h = sym h
connected_apart pipe_connected h = refl
connected_apart pipe_wait_disconnect h = refl
connected_apart pipe_disconnected h = refl

module _ (s : Pipe) where
  receive-HasLinks :
      (v size copy : ℕ) (msgs : List (List ℕ)) → HasLinks s (receive s v size copy msgs).1
  receive-HasLinks v size copy [] = HasLinks-refl s
  receive-HasLinks v size copy (msg ∷ rest) = elim (Bool-cases (is_error copy)) [
    | inl e ↦ rw e (HasLinks-refl s)
    | inr e ↦
        rw e
          (set_queue-HasLinks s v (record (s.server v) { received_messages = rest }) refl refl refl)
  ]

  fetch-HasLinks :
      (v size copy : ℕ) (msgs : List (List ℕ)) → HasLinks s (fetch s v size copy msgs).1
  fetch-HasLinks v size copy [] = HasLinks-refl s
  fetch-HasLinks v size copy (msg ∷ rest) = elim (Bool-cases (is_error copy)) [
    | inl e ↦ rw e (HasLinks-refl s)
    | inr e ↦
        rw e (set_queue-HasLinks s v (record (s.server v) { sent_messages = rest }) refl refl refl)
  ]

  receive_or_wait-HasLinks :
      (v current size copy : ℕ) (msgs : List (List ℕ))
      → is_connected (s.server v).state ≡ true
      → HasLinks s (receive_or_wait s v current size copy msgs).1
  receive_or_wait-HasLinks v current size copy [] on =
      let s' = set_server s v (record (s.server v) { thread = some current }) in
      HasLinks-trans s s' (stop s' current)
        (set_server-HasLinks s v (record (s.server v) { thread = some current })
          (connected_apart (s.server v).state on) refl refl)
        (stop-HasLinks s' current)
  receive_or_wait-HasLinks v current size copy (msg ∷ rest) on =
      receive-HasLinks v size copy (msg ∷ rest)

  pub server_read-HasLinks :
      (v current size copy : ℕ) → HasLinks s (server_read s v current size copy).1
  unfolding server_read
  server_read-HasLinks v current size copy = elim (Bool-cases (is_connected (s.server v).state)) [
    | inr e ↦ rw e (HasLinks-refl s)
    | inl e ↦ elim (Bool-cases (is_none (s.server v).thread)) [
      | inr e' ↦ rw (e, e') (HasLinks-refl s)
      | inl e' ↦
          rw (e, e') (receive_or_wait-HasLinks v current size copy (s.server v).received_messages e)
    ]
  ]

  pub server_read_resumed-HasLinks :
      (v : ℕ) (is_terminated : Bool) (size copy : ℕ)
      → All (server_read_resumed s v is_terminated size copy) (λ r. HasLinks s r.1)
  unfolding server_read_resumed All
  server_read_resumed-HasLinks v true size copy = HasLinks-refl s
  server_read_resumed-HasLinks v false size copy = elim (Bool-cases (is_none (s.server v).thread)) [
    | inr e ↦ rw e tt
    | inl e ↦ rw e (receive-HasLinks v size copy (s.server v).received_messages)
  ]

  fetch_or_wait-HasLinks :
      (c v current size copy : ℕ) (msgs : List (List ℕ))
      → HasLinks s (fetch_or_wait s c v current size copy msgs).1
  fetch_or_wait-HasLinks c v current size copy [] =
      let s' = set_client_of s c (record (s.client c) { thread = some current }) in
      HasLinks-trans s s' (stop s' current)
        (set_client_of-HasLinks s c (record (s.client c) { thread = some current }) refl)
        (stop-HasLinks s' current)
  fetch_or_wait-HasLinks c v current size copy (msg ∷ rest) =
      fetch-HasLinks v size copy (msg ∷ rest)

  read_from-HasLinks :
      (c : ℕ) (its : Option ℕ) (current size copy : ℕ)
      → HasLinks s (read_from s c its current size copy).1
  read_from-HasLinks c none current size copy = HasLinks-refl s
  read_from-HasLinks c (some v) current size copy =
      elim (Bool-cases (is_connected (s.server v).state)) [
        | inr e ↦ rw e (HasLinks-refl s)
        | inl e ↦ elim (Bool-cases (is_none (s.client c).thread)) [
          | inr e' ↦ rw (e, e') (HasLinks-refl s)
          | inl e' ↦
              rw (e, e') (fetch_or_wait-HasLinks c v current size copy (s.server v).sent_messages)
        ]
      ]

  pub client_read-HasLinks :
      (c current size copy : ℕ) → HasLinks s (client_read s c current size copy).1
  unfolding client_read
  client_read-HasLinks c current size copy =
      read_from-HasLinks c (s.client c).server current size copy

  fetch_from-HasLinks :
      (its : Option ℕ) (size copy : ℕ) → All (fetch_from s its size copy) (λ r. HasLinks s r.1)
  unfolding All
  fetch_from-HasLinks none size copy = tt
  fetch_from-HasLinks (some v) size copy = fetch-HasLinks v size copy (s.server v).sent_messages

  pub client_read_resumed-HasLinks :
      (c : ℕ) (is_terminated : Bool) (size copy : ℕ)
      → All (client_read_resumed s c is_terminated size copy) (λ r. HasLinks s r.1)
  unfolding client_read_resumed All
  client_read_resumed-HasLinks c true size copy = HasLinks-refl s
  client_read_resumed-HasLinks c false size copy = elim (Bool-cases (is_none (s.client c).thread)) [
    | inr e ↦ rw e tt
    | inl e ↦ rw e (fetch_from-HasLinks (s.client c).server size copy)
  ]
