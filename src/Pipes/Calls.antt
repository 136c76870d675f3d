-- ===== src/Pipes/Calls.antt =====
-- The operations of kernel/namedpipe.cpp that make and part servers and clients.
use ring3k.Prelude.{
  ℕ, ◌+◌, ◌-◌, ◌%◌, ◌≡◌, refl, ap, sym, ◌∙◌, inl, inr, true, Option, ◌==◌, leb, Bool-cases, none,
  Option-cases, List, [], ◌∷◌, ◌++◌, length, length-append, leb→lt, arith,
}
use ring3k.Completion.{is_none, is_linked, unlink}
use ring3k.Completion.Put.{put_at}
use ring3k.Prelude.Checked.{returns}
use ring3k.Pipes.{
  pipe_disconnected, is_connected, Pipe, new_server, new_client, set_server, set_client_of,
  find_idle, find_idle_server, create_client, create_server, disconnect, close_server, word_mod,
}
use ring3k.Pipes.Links.{IsPaired}
use ring3k.Pipes.Joins.{leave-IsPaired, set_server-IsPaired, recount}
use ring3k.Status.{status_success, status_pipe_broken}
use ring3k.Pipes.Meet.{
  Returns, IsMet, find_idle-IsAwaiting, client_added, meet_lem, FirstWaiting,
  find_idle-FirstWaiting, AreStopped, meet_returns,
}

length-unlink : (xs : List ℕ) (n : ℕ) → is_linked xs n ≡ true → length (unlink xs n) + 1 ≡ length xs
unfolding is_linked unlink
length-unlink [] n h = cc h
length-unlink (x ∷ xs) n h = elim (Bool-cases (x == n)) [
  | inl e ↦ rw e (omega arith)
  | inr e ↦ rw e (omega (arith, length-unlink xs n (rw e at h)))
]

module _ (s : Pipe) (paired : IsPaired s) where
  -- With the pointers of servers and clients in order, and the threads with which servers wait for
  -- a client stopped or terminated, creating a client, under a number without a server, fails no
  -- assertion: the client is connected to the first listed server that waits for a client, and the
  -- thread of that server runs unless it is terminated; if no server waits, the client has none.
  -- The pointers are in order again.
  pub create_client_lem :
      (c : ℕ)
      → (s.client c).server ≡ none
      → AreStopped s
      → Returns
          (create_client s c)
          (λ s'. (found : Option ℕ) × FirstWaiting s.server s.servers found × IsMet s s' c found)
  unfolding create_client find_idle_server AreStopped
  create_client_lem c free stopped =
      let s' = set_client_of s c new_client in
      let free' = ap (λ x. x.server) (put_at s.client c new_client) in
      let (met, e, is_met) =
        meet_lem s' (client_added s paired c free) c (find_idle s.server s.servers) free'
          (find_idle-IsAwaiting s.server s.servers) stopped in
      (
        met,
        e,
        (
          find_idle s.server s.servers,
          find_idle-FirstWaiting s.server s.servers,
          record { paired = is_met.paired; server = is_met.server; woken = is_met.woken },
        ),
      )

  pub create_client-IsPaired :
      (c : ℕ) (s' : Pipe)
      → (s.client c).server ≡ none
      → create_client s c ≡ returns s'
      → IsPaired s'
  unfolding create_client find_idle_server
  create_client-IsPaired c s' free e =
      (meet_returns (set_client_of s c new_client) (client_added s paired c free) c
        (find_idle s.server s.servers) (ap (λ x. x.server) (put_at s.client c new_client))
        (find_idle-IsAwaiting s.server s.servers) s' e).paired

  pub create_server-IsPaired :
      (v max : ℕ) → (s.server v).client ≡ none → IsPaired (create_server s v max).1
  unfolding create_server
  create_server-IsPaired v max free = elim (Bool-cases (max == s.max_instances)) [
    | inr e ↦ rw e paired
    | inl e ↦ elim (Bool-cases (leb s.max_instances s.num_instances)) [
      | inl e' ↦ rw (e, e') paired
      | inr e' ↦
          let added = set_server-IsPaired s paired v new_server free refl refl (λ h. sym h) in
          let more =
            recount (set_server s v new_server) added (s.servers ++ v ∷ []) (s.num_instances + 1)
              (omega (arith, length-append s.servers (v ∷ []), paired.counted))
              (omega (arith, leb→lt _ _ e')) in
          rw (e, e') more
    ]
  ]

  pub close_server-IsPaired :
      (v : ℕ)
      → is_linked s.servers v ≡ true
      → (s.server v).client ≡ none
      → IsPaired (close_server s v)
  unfolding close_server
  close_server-IsPaired v there free =
      let gone = set_server-IsPaired s paired v new_server free refl refl (λ h. sym h) in
      let left = length-unlink s.servers v there in
      let one : (s.num_instances + word_mod - 1) % word_mod ≡ length (unlink s.servers v) =
        omega (arith, left, paired.counted, paired.bounded, paired.word) in
      recount (set_server s v new_server) gone (unlink s.servers v)
        ((s.num_instances + word_mod - 1) % word_mod) one
        (omega (arith, one, left, paired.counted, paired.bounded))

  -- `disconnect` fails no assertion.
  pub disconnect_lem : (v : ℕ) → Returns (disconnect s v) (λ r. IsPaired r.1)
  unfolding disconnect
  disconnect_lem v = elim (Bool-cases (is_connected (s.server v).state)) [
    | inr e ↦ ((status_pipe_broken, s), rw e, paired)
    | inl e ↦ elim (Option-cases (s.server v).client) [
      | inl e' ↦ cc (ap is_none (sym e') ∙ paired.linked v e)
      | inr (c, e') ↦
          let s' = set_client_of s c (record (s.client c) { server = none }) in
          (
            (
              status_success,
              set_server s' v (record (s.server v) { client = none; state = pipe_disconnected }),
            ),
            rw (e, e'),
            leave-IsPaired s paired v c e',
          )
    ]
  ]
