-- ===== src/Pipes/Meet.antt =====
-- A client meets a server that waits, and a server starts to wait, in kernel/namedpipe.cpp.
use ring3k.Prelude.{
  ℕ, ◌≡◌, refl, ap, sym, ◌∙◌, subst, inl, inr, true, false, not, ◌&&◌, ◌≢◌, Bool-cases, Option,
  none, some, Option-cases, List, [], ◌∷◌,
}
use ring3k.Prelude.Checked.{Checked, returns, aborts}
use ring3k.Completion.{put, is_none}
use ring3k.Completion.Put.{put_at, put_twice}
use ring3k.Pipes.{
  pipe_wait_connect, pipe_connected, is_awaiting_connect, is_connected, is_idle, Server, Pipe,
  new_client, set_server, set_client_of, set_client, start, find_idle, start_server, meet,
  connect_first, do_connect, wait_on, connect, finished,
}
use ring3k.Pipes.Links.{
  IsPaired, HasLinks, HasLinks-IsPaired, HasLinks-trans, set_server-HasLinks,
  set_client_of-HasLinks, start-HasLinks,
}
use ring3k.Pipes.Joins.{
  same_some, not_connected, idle_not_connected, alone, set_client-IsPaired, set_server-IsPaired,
}
use ring3k.Status.{status_pipe_connected}

pub same_returns : {A : Type 0} {a b : A} → returns a ≡ returns b → a ≡ b
same_returns h = cc h

apart : {a : Pipe} → aborts ≢ returns a
apart h = cc h

-- The kernel goes on, and a predicate holds of the result.
abbrev pub Returns : {A : Type 0} → Checked A → (A → Type 0) → Type 0
Returns {A} m P = (a : A) × (m ≡ returns a) × P a

pub find_idle-IsAwaiting :
    (server : ℕ → Server) (servers : List ℕ) (v : ℕ)
    → find_idle server servers ≡ some v
    → is_awaiting_connect (server v).state ≡ true
unfolding find_idle
find_idle-IsAwaiting server [] v h = cc h
find_idle-IsAwaiting server (n ∷ rest) v h =
    elim (Bool-cases (is_awaiting_connect (server n).state)) [
      | inl e ↦
          let same : n ≡ v = cc (rw e at h) in
          subst (λ k. is_awaiting_connect (server k).state ≡ true) same e
      | inr e ↦ find_idle-IsAwaiting server rest v (rw e at h)
    ]

-- The first of the listed servers that waits for a client, if one does.
pub data FirstWaiting (server : ℕ → Server) : List ℕ → Option ℕ → Type 0 where
  nobody : FirstWaiting server [] none
  first :
      {v : ℕ} {rest : List ℕ}
      → is_awaiting_connect (server v).state ≡ true
      → FirstWaiting server (v ∷ rest) (some v)
  later :
      {v : ℕ} {rest : List ℕ} {found : Option ℕ}
      → is_awaiting_connect (server v).state ≡ false
      → FirstWaiting server rest found
      → FirstWaiting server (v ∷ rest) found

pub find_idle-FirstWaiting :
    (server : ℕ → Server) (servers : List ℕ)
    → FirstWaiting server servers (find_idle server servers)
unfolding find_idle
find_idle-FirstWaiting server [] = nobody
find_idle-FirstWaiting server (v ∷ rest) =
    elim (Bool-cases (is_awaiting_connect (server v).state)) [
      | inl e ↦ rw e (first e)
      | inr e ↦ rw e (later e (find_idle-FirstWaiting server rest))
    ]

-- The threads with which servers wait for a client do not run, or are terminated.
unfoldable pub AreStopped : Pipe → Type 0
AreStopped s =
    (v t : ℕ)
    → is_awaiting_connect (s.server v).state ≡ true
    → (s.server v).thread ≡ some t
    → not (s.terminated t) && s.running t ≡ false

-- What creating a client changes: it has the server that was found, whose thread goes on unless it
-- was terminated.
pub record IsMet (s s' : Pipe) (c : ℕ) (found : Option ℕ) : Type 0 where
  pub paired : IsPaired s'
  pub server : (s'.client c).server ≡ found
  pub woken :
      (v t : ℕ)
      → found ≡ some v
      → (s.server v).thread ≡ some t
      → s.terminated t ≡ false
      → s'.running t ≡ true

module _ (s : Pipe) (paired : IsPaired s) where
  -- A new client.
  pub client_added : (c : ℕ) → (s.client c).server ≡ none → IsPaired (set_client_of s c new_client)
  client_added c free =
      HasLinks-IsPaired s (set_client_of s c new_client)
        (set_client_of-HasLinks s c new_client (sym free)) paired

  -- A server that waits for a client gets it.
  met : (v c t : ℕ) → Pipe
  met v c t =
      let s' = set_client s v c in
      start (set_server s' v (record (s'.server v) { thread = none })) t

  met-HasLinks : (v c t : ℕ) → HasLinks (set_client s v c) (met v c t)
  unfolding met set_client
  met-HasLinks v c t =
      let s' = set_client s v c in
      let server = record (s'.server v) { thread = none } in
      let at_v =
        put_at s.server v (record (s.server v) { client = some c; state = pipe_connected }) in
      HasLinks-trans s' (set_server s' v server) (start (set_server s' v server) t)
        (set_server-HasLinks s' v server (ap (λ x. is_awaiting_connect x.state) at_v) refl refl)
        (start-HasLinks (set_server s' v server) t)

  met_server : (v c t : ℕ) → ((met v c t).client c).server ≡ some v
  unfolding set_client
  met_server v c t =
      (met-HasLinks v c t).server c
      ∙ ap (λ x. x.server) (put_at s.client c (record (s.client c) { server = some v }))

  met_running : (v c t : ℕ) → s.terminated t ≡ false → (met v c t).running t ≡ true
  unfolding met set_client
  met_running v c t alive = rw (alive, put_at s.running t true)

  met_runs :
      (v c t : ℕ)
      → (s.server v).thread ≡ some t
      → not (s.terminated t) && s.running t ≡ false
      → meet s c (some v) ≡ returns (met v c t)
  unfolding meet met set_client
  met_runs v c t e off = ap (start_server (set_client s v c) v) e ∙ rw off

  met_aborts :
      (v c t : ℕ)
      → (s.server v).thread ≡ some t
      → not (s.terminated t) && s.running t ≡ true
      → meet s c (some v) ≡ aborts
  unfolding meet set_client
  met_aborts v c t e on = ap (start_server (set_client s v c) v) e ∙ rw on

  met-IsMet :
      (v c t : ℕ)
      → (s.client c).server ≡ none
      → is_awaiting_connect (s.server v).state ≡ true
      → (s.server v).thread ≡ some t
      → IsMet s (met v c t) c (some v)
  met-IsMet v c t free idle e = record {
    paired =
        HasLinks-IsPaired (set_client s v c) (met v c t) (met-HasLinks v c t)
          (set_client-IsPaired s paired v c (not_connected (s.server v).state idle) free);
    server = met_server v c t;
    woken = λ w u same at alive.
        let here = ap (λ k. (s.server k).thread) (same_some same) in
        let its = same_some (sym e ∙ here ∙ at) in
        subst (λ k. (met v c t).running k ≡ true) its
          (met_running v c t (ap s.terminated its ∙ alive));
  }

  -- Where the kernel goes on, the client has met the server.
  pub meet_returns :
      (c : ℕ) (found : Option ℕ)
      → (s.client c).server ≡ none
      → ((v : ℕ) → found ≡ some v → is_awaiting_connect (s.server v).state ≡ true)
      → (s' : Pipe) → meet s c found ≡ returns s'
      → IsMet s s' c found
  unfolding meet
  meet_returns c none free idle s' h =
      subst (λ p. IsMet s p c none) (same_returns h)
        (record { paired = paired; server = free; woken = λ v t z e alive. cc z })
  meet_returns c (some v) free idle s' h = elim (Option-cases (s.server v).thread) [
    | inl e ↦ cc (ap is_none (sym e) ∙ paired.waiting v (idle v refl))
    | inr (t, e) ↦ elim (Bool-cases (not (s.terminated t) && s.running t)) [
      | inl on ↦ absurd (apart (sym (met_aborts v c t e on) ∙ h))
      | inr off ↦
          subst (λ p. IsMet s p c (some v)) (same_returns (sym (met_runs v c t e off) ∙ h))
            (met-IsMet v c t free (idle v refl) e)
    ]
  ]

  pub meet_lem :
      (c : ℕ) (found : Option ℕ)
      → (s.client c).server ≡ none
      → ((v : ℕ) → found ≡ some v → is_awaiting_connect (s.server v).state ≡ true)
      → AreStopped s
      → Returns (meet s c found) (λ s'. IsMet s s' c found)
  unfolding meet AreStopped
  meet_lem c none free idle stopped =
      (s, refl, record { paired = paired; server = free; woken = λ v t h e alive. cc h })
  meet_lem c (some v) free idle stopped = elim (Option-cases (s.server v).thread) [
    | inl e ↦ cc (ap is_none (sym e) ∙ paired.waiting v (idle v refl))
    | inr (t, e) ↦ (
      met v c t,
      met_runs v c t e (stopped v t (idle v refl) e),
      met-IsMet v c t free (idle v refl) e,
    )
  ]

  -- A server that waits for a client.
  abbrev pub begun : ℕ → Pipe
  begun v = set_server s v (record (s.server v) { state = pipe_wait_connect })

  pub connect_step :
      (v current : ℕ)
      → is_idle (s.server v).state ≡ true
      → connect s v current ≡ wait_on (begun v) v current
  unfolding connect do_connect connect_first
  connect_step v current e =
      let at_v = put_at s.server v (record (s.server v) { state = pipe_wait_connect }) in
      rw (e, paired.unlisted, ap (λ x. is_connected x.state) at_v)

  pub connect_refused :
      (v current : ℕ)
      → is_idle (s.server v).state ≡ false
      → connect s v current ≡ (finished status_pipe_connected [], s)
  unfolding connect
  connect_refused v current e = rw e

  waiting-HasLinks :
      (v current : ℕ)
      → HasLinks
          (set_server s v
            (record (s.server v) { state = pipe_wait_connect; thread = some current }))
          (wait_on (begun v) v current).1
  waiting-HasLinks v current =
      let started = record (s.server v) { state = pipe_wait_connect } in
      let server = record (s.server v) { state = pipe_wait_connect; thread = some current } in
      let same : (n : ℕ)
          → put (put s.server v started) v
              (record (put s.server v started v) { thread = some current }) n
            ≡ put s.server v server n =
        λ n.
          ap (λ x. put (put s.server v started) v (record x { thread = some current }) n)
            (put_at s.server v started)
          ∙ put_twice s.server v n started server in
      record {
        state = λ n. ap (λ x. x.state) (same n);
        client = λ n. ap (λ x. x.client) (same n);
        server = λ c. refl;
        thread = λ n h. ap (λ x. x.thread) (same n);
        clients = refl;
        servers = refl;
        num = refl;
        max = refl;
      }

  pub connect-IsPaired : (v current : ℕ) → IsPaired (connect s v current).1
  connect-IsPaired v current = elim (Bool-cases (is_idle (s.server v).state)) [
    | inr e ↦ subst IsPaired (sym (ap (λ r. r.1) (connect_refused v current e))) paired
    | inl e ↦
        let server = record (s.server v) { state = pipe_wait_connect; thread = some current } in
        let free = alone s paired v (idle_not_connected (s.server v).state e) in
        subst IsPaired (sym (ap (λ r. r.1) (connect_step v current e))) (
          HasLinks-IsPaired (set_server s v server) (wait_on (begun v) v current).1
            (waiting-HasLinks v current)
            (set_server-IsPaired s paired v server free free refl (λ h. refl)))
  ]
