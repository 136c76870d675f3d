-- ===== src/Pipes/Messages/Reading.antt =====
-- What a read of a server in kernel/namedpipe.cpp gives, and which messages it leaves.
use ring3k.Prelude.{
  ℕ, ◌≡◌, ◌≢◌, refl, ap, sym, ◌∙◌, subst, inl, inr, Bool, true, false, Bool-cases, some, List, [],
  ◌∷◌, arith,
}
use ring3k.Completion.{is_none}
use ring3k.Completion.Put.{put_at}
use ring3k.Pipes.{is_connected, Pipe, Outcome, finished, blocked}
use ring3k.Pipes.Messages.{part_of, receive, receive_or_wait, server_read, server_read_resumed}
use ring3k.Pipes.Messages.Exchange.{All}
use ring3k.Status.{is_error, status_success}

-- The messages that the server has not read yet.
abbrev pub waiting : Pipe → ℕ → List (List ℕ)
waiting s v = (s.server v).received_messages

-- What a read of so many bytes comes to, and the messages it leaves: the first message, cut to the
-- bytes; nothing, or a wait, if there is none; or an error, and then all messages stay.
pub data Reads (size : ℕ) : List (List ℕ) → Outcome → List (List ℕ) → Type 0 where
  first :
      {msg : List ℕ} {rest : List (List ℕ)}
      → Reads size (msg ∷ rest) (finished status_success (part_of msg size)) rest
  empty : Reads size [] (finished status_success []) []
  waits : Reads size [] blocked []
  fails : {r : ℕ} {msgs : List (List ℕ)} → r ≢ status_success → Reads size msgs (finished r []) msgs

module _ (s : Pipe) (v : ℕ) where
  receive-Reads :
      (size copy : ℕ) (msgs : List (List ℕ))
      → waiting s v ≡ msgs
      → Reads size msgs (receive s v size copy msgs).0 (waiting (receive s v size copy msgs).1 v)
  receive-Reads size copy [] e = subst (Reads size [] (finished status_success [])) (sym e) empty
  receive-Reads size copy (msg ∷ rest) e = elim (Bool-cases (is_error copy)) [
    | inl e' ↦
        rw e' (subst (Reads size (msg ∷ rest) (finished copy [])) (sym e) (fails (λ z. cc (z, e'))))
    | inr e' ↦
        let server = record (s.server v) { received_messages = rest } in
        rw e' (
          subst (Reads size (msg ∷ rest) (finished status_success (part_of msg size)))
            (sym (ap (λ x. x.received_messages) (put_at s.server v server))) first)
  ]

  receive_or_wait-Reads :
      (current size copy : ℕ) (msgs : List (List ℕ))
      → waiting s v ≡ msgs
      → Reads size msgs
          (receive_or_wait s v current size copy msgs).0
          (waiting (receive_or_wait s v current size copy msgs).1 v)
  receive_or_wait-Reads current size copy [] e =
      let server = record (s.server v) { thread = some current } in
      subst (Reads size [] blocked)
        (sym (ap (λ x. x.received_messages) (put_at s.server v server) ∙ e)) waits
  receive_or_wait-Reads current size copy (msg ∷ rest) e = receive-Reads size copy (msg ∷ rest) e

  pub server_read-Reads :
      (current size copy : ℕ)
      → Reads size
          (waiting s v)
          (server_read s v current size copy).0
          (waiting (server_read s v current size copy).1 v)
  unfolding server_read
  server_read-Reads current size copy = elim (Bool-cases (is_connected (s.server v).state)) [
    | inr e ↦ rw e (fails (omega arith))
    | inl e ↦ elim (Bool-cases (is_none (s.server v).thread)) [
      | inr e' ↦ rw (e, e') (fails (omega arith))
      | inl e' ↦ rw (e, e') (receive_or_wait-Reads current size copy (waiting s v) refl)
    ]
  ]

  pub server_read_resumed-Reads :
      (is_terminated : Bool) (size copy : ℕ)
      → All
          (server_read_resumed s v is_terminated size copy)
          (λ r. Reads size (waiting s v) r.0 (waiting r.1 v))
  unfolding server_read_resumed All
  server_read_resumed-Reads true size copy = fails (omega arith)
  server_read_resumed-Reads false size copy = elim (Bool-cases (is_none (s.server v).thread)) [
    | inr e ↦ rw e tt
    | inl e ↦ rw e (receive-Reads size copy (waiting s v) refl)
  ]
