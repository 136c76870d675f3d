-- ===== src/Pipes/Joins.antt =====
-- The operations of kernel/namedpipe.cpp that join servers and clients and part them.
use ring3k.Prelude.{
  ℕ, ◌≤◌, ◌≡◌, ◌≢◌, refl, ap, sym, ◌∙◌, inl, inr, true, false, ◌==◌, Bool-cases, ==→≡, none, some,
  Option-cases, List, length, arith,
}
use ring3k.Completion.{is_none}
use ring3k.Completion.Put.{put_eq, put_else, put_same}
use ring3k.Pipes.{
  PipeState, pipe_idle, pipe_wait_connect, pipe_connected, pipe_wait_disconnect, pipe_disconnected,
  is_awaiting_connect, is_connected, is_idle, Server, Pipe, set_server, set_client_of, set_client,
}
use ring3k.Pipes.Links.{IsPaired}

pub same_some : {a b : ℕ} → some a ≡ some b → a ≡ b
same_some h = cc h

pub not_connected : (st : PipeState) → is_awaiting_connect st ≡ true → is_connected st ≡ false
not_connected pipe_idle h = refl
not_connected pipe_wait_connect h = refl
not_connected pipe_connected h = sym h
not_connected pipe_wait_disconnect h = refl
not_connected pipe_disconnected h = refl

pub idle_not_connected : (st : PipeState) → is_idle st ≡ true → is_connected st ≡ false
idle_not_connected pipe_idle h = refl
idle_not_connected pipe_wait_connect h = refl
idle_not_connected pipe_connected h = sym h
idle_not_connected pipe_wait_disconnect h = refl
idle_not_connected pipe_disconnected h = refl

module _ (s : Pipe) (paired : IsPaired s) where
  -- A server that is not connected has no client.
  pub alone : (v : ℕ) → is_connected (s.server v).state ≡ false → (s.server v).client ≡ none
  alone v h = elim (Option-cases (s.server v).client) [
    | inl e ↦ e
    | inr (c, e) ↦ let (on, at) = paired.forth v c e in cc (on, h)
  ]

  pub set_client-IsPaired :
      (v c : ℕ)
      → is_connected (s.server v).state ≡ false
      → (s.client c).server ≡ none
      → IsPaired (set_client s v c)
  unfolding set_client
  set_client-IsPaired v c off free =
      let server = record (s.server v) { client = some c; state = pipe_connected } in
      let client = record (s.client c) { server = some v } in
      record {
        forth = λ n m h. elim (Bool-cases (n == v)) [
          | inl e ↦
              let same = ==→≡ n v e in
              let at_v = put_eq s.server v n server same in
              let its = sym (same_some (ap (λ x. x.client) (sym at_v) ∙ h)) in
              (
                ap (λ x. is_connected x.state) at_v,
                ap (λ x. x.server) (put_eq s.client c m client its) ∙ ap some (sym same),
              )
          | inr e ↦
              let else_v = put_else s.server v n server (ground arith) in
              let (on, at) = paired.forth n m (ap (λ x. x.client) (sym else_v) ∙ h) in
              let not_c : m ≢ c = λ z. cc (ap (λ k. (s.client k).server) z, at, free) in
              (
                ap (λ x. is_connected x.state) else_v ∙ on,
                ap (λ x. x.server) (put_else s.client c m client not_c) ∙ at,
              )
        ];
        back = λ m n h. elim (Bool-cases (m == c)) [
          | inl e ↦
              let same = ==→≡ m c e in
              let at_c = put_eq s.client c m client same in
              let its = sym (same_some (ap (λ x. x.server) (sym at_c) ∙ h)) in
              ap (λ x. x.client) (put_eq s.server v n server its) ∙ ap some (sym same)
          | inr e ↦
              let else_c = put_else s.client c m client (ground arith) in
              let old = paired.back m n (ap (λ x. x.server) (sym else_c) ∙ h) in
              let not_v : n ≢ v = λ z. cc (ap (λ k. (s.server k).client) z, old, alone v off) in
              ap (λ x. x.client) (put_else s.server v n server not_v) ∙ old
        ];
        linked = λ n h. elim (Bool-cases (n == v)) [
          | inl e ↦ ap (λ x. is_none x.client) (put_eq s.server v n server (==→≡ n v e))
          | inr e ↦
              let else_v = put_else s.server v n server (ground arith) in
              ap (λ x. is_none x.client) else_v
              ∙ paired.linked n (ap (λ x. is_connected x.state) (sym else_v) ∙ h)
        ];
        waiting = λ n h. elim (Bool-cases (n == v)) [
          | inl e ↦
              let at_v = put_eq s.server v n server (==→≡ n v e) in
              cc (ap (λ x. is_awaiting_connect x.state) (sym at_v) ∙ h)
          | inr e ↦
              let else_v = put_else s.server v n server (ground arith) in
              ap (λ x. is_none x.thread) else_v
              ∙ paired.waiting n (ap (λ x. is_awaiting_connect x.state) (sym else_v) ∙ h)
        ];
        unlisted = paired.unlisted;
        counted = paired.counted;
        bounded = paired.bounded;
        word = paired.word;
      }

  pub leave-IsPaired :
      (v c : ℕ)
      → (s.server v).client ≡ some c
      → IsPaired (
          set_server
            (set_client_of s c (record (s.client c) { server = none }))
            v
            (record (s.server v) { client = none; state = pipe_disconnected }))
  leave-IsPaired v c its =
      let server = record (s.server v) { client = none; state = pipe_disconnected } in
      let client = record (s.client c) { server = none } in
      let (on_v, at_its) = paired.forth v c its in
      record {
        forth = λ n m h. elim (Bool-cases (n == v)) [
          | inl e ↦
              let at_v = put_eq s.server v n server (==→≡ n v e) in
              cc (ap (λ x. x.client) (sym at_v) ∙ h)
          | inr e ↦
              let other : n ≢ v = ground arith in
              let else_v = put_else s.server v n server other in
              let (on, at) = paired.forth n m (ap (λ x. x.client) (sym else_v) ∙ h) in
              let not_c : m ≢ c =
                λ z. other (same_some (sym at ∙ ap (λ k. (s.client k).server) z ∙ at_its)) in
              (
                ap (λ x. is_connected x.state) else_v ∙ on,
                ap (λ x. x.server) (put_else s.client c m client not_c) ∙ at,
              )
        ];
        back = λ m n h. elim (Bool-cases (m == c)) [
          | inl e ↦
              let at_c = put_eq s.client c m client (==→≡ m c e) in
              cc (ap (λ x. x.server) (sym at_c) ∙ h)
          | inr e ↦
              let other : m ≢ c = ground arith in
              let else_c = put_else s.client c m client other in
              let old = paired.back m n (ap (λ x. x.server) (sym else_c) ∙ h) in
              let not_v : n ≢ v =
                λ z. other (same_some (sym old ∙ ap (λ k. (s.server k).client) z ∙ its)) in
              ap (λ x. x.client) (put_else s.server v n server not_v) ∙ old
        ];
        linked = λ n h. elim (Bool-cases (n == v)) [
          | inl e ↦
              let at_v = put_eq s.server v n server (==→≡ n v e) in
              cc (ap (λ x. is_connected x.state) (sym at_v) ∙ h)
          | inr e ↦
              let else_v = put_else s.server v n server (ground arith) in
              ap (λ x. is_none x.client) else_v
              ∙ paired.linked n (ap (λ x. is_connected x.state) (sym else_v) ∙ h)
        ];
        waiting = λ n h. elim (Bool-cases (n == v)) [
          | inl e ↦
              let at_v = put_eq s.server v n server (==→≡ n v e) in
              cc (ap (λ x. is_awaiting_connect x.state) (sym at_v) ∙ h)
          | inr e ↦
              let else_v = put_else s.server v n server (ground arith) in
              ap (λ x. is_none x.thread) else_v
              ∙ paired.waiting n (ap (λ x. is_awaiting_connect x.state) (sym else_v) ∙ h)
        ];
        unlisted = paired.unlisted;
        counted = paired.counted;
        bounded = paired.bounded;
        word = paired.word;
      }

  -- A write to a server without client that leaves it so.
  pub set_server-IsPaired :
      (v : ℕ) (server : Server)
      → (s.server v).client ≡ none
      → server.client ≡ none
      → is_connected server.state ≡ false
      → (is_awaiting_connect server.state ≡ true → is_none server.thread ≡ false)
      → IsPaired (set_server s v server)
  set_server-IsPaired v server was now off waits = record {
    forth = λ n m h.
        let same = put_same (λ x. x.client) s.server v n server (now ∙ sym was) in
        let (on, at) = paired.forth n m (sym same ∙ h) in
        let other : n ≢ v = λ z. cc (sym same ∙ h, ap (λ k. (s.server k).client) z, was) in
        (ap (λ x. is_connected x.state) (put_else s.server v n server other) ∙ on, at);
    back =
        λ m n h. put_same (λ x. x.client) s.server v n server (now ∙ sym was) ∙ paired.back m n h;
    linked = λ n h. elim (Bool-cases (n == v)) [
      | inl e ↦
          cc (
            ap (λ x. is_connected x.state) (sym (put_eq s.server v n server (==→≡ n v e))) ∙ h,
            off,
          )
      | inr e ↦
          let else_v = put_else s.server v n server (ground arith) in
          ap (λ x. is_none x.client) else_v
          ∙ paired.linked n (ap (λ x. is_connected x.state) (sym else_v) ∙ h)
    ];
    waiting = λ n h. elim (Bool-cases (n == v)) [
      | inl e ↦
          let at_v = put_eq s.server v n server (==→≡ n v e) in
          ap (λ x. is_none x.thread) at_v
          ∙ waits (ap (λ x. is_awaiting_connect x.state) (sym at_v) ∙ h)
      | inr e ↦
          let else_v = put_else s.server v n server (ground arith) in
          ap (λ x. is_none x.thread) else_v
          ∙ paired.waiting n (ap (λ x. is_awaiting_connect x.state) (sym else_v) ∙ h)
    ];
    unlisted = paired.unlisted;
    counted = paired.counted;
    bounded = paired.bounded;
    word = paired.word;
  }

  -- Another list of servers, with its length.
  pub recount :
      (servers : List ℕ) (n : ℕ)
      → n ≡ length servers
      → n ≤ s.max_instances
      → IsPaired (record s { servers = servers; num_instances = n })
  recount servers n counted bounded = record {
    forth = paired.forth;
    back = paired.back;
    linked = paired.linked;
    waiting = paired.waiting;
    unlisted = paired.unlisted;
    counted = counted;
    bounded = bounded;
    word = paired.word;
  }
