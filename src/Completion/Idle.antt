-- ===== src/Completion/Idle.antt =====
-- `check_completions` of kernel/completion.cpp, which runs whenever no thread is active.
use ring3k.Prelude.{
  ℕ, zero, suc, ◌≤◌, leb, ◌<◌, ◌≡◌, ◌≢◌, refl, ap, ◌∙◌, inl, inr, Bool, true, false, ◌&&◌, ◌==◌,
  if◌then◌else◌, Bool-cases, ≡→==, ==→≡, none, some, List, [], ◌∷◌, length, arith,
}
use ring3k.Prelude.Checked.{Checked, returns, aborts, ◌>>=◌}
use ring3k.Completion.{
  set, serve, port_wait_idle, Packet, Ports, put, is_empty, is_linked, unlink, hand_over,
  start_from, start_first, start_waiter, check_waiters, check_ports, check_completions,
}

-- So many times in a row no thread is active.
pub idle_checks : ℕ → Ports → Checked Ports
idle_checks zero s = returns s
idle_checks (suc n) s = check_completions s >>= λ s'. idle_checks n s'

-- The threads are distinct, and their waiters have no packet.
unfoldable pub AreIdle : Ports → List ℕ → Type 0
AreIdle s [] = Unit {0}
AreIdle s (w ∷ ws) = (s.packets w ≡ none) × (is_linked ws w ≡ false) × AreIdle s ws

-- Each of the threads runs and has the packet at its place.
unfoldable pub Delivered : Ports → List ℕ → List Packet → Type 0
Delivered s (w ∷ ws) (g ∷ gs) = (s.packets w ≡ some g) × (s.running w ≡ true) × Delivered s ws gs
Delivered s ws gs = Unit {0}

-- After the first waiter got the first packet.
abbrev handed : Ports → ℕ → List ℕ → ℕ → List ℕ → Packet → List Packet → Ports
handed s p rest w ws g gs = record {
  ports = put s.ports p (record (s.ports p) { queue = gs; waiters = ws });
  waiting = if is_empty ws then rest else p ∷ rest;
  packets = put s.packets w (some g);
  running = put s.running w true;
}

same_== : (a : ℕ) → (a == a) ≡ true
same_== a = ≡→== a a refl

and_true : (b : Bool) → (b && true) ≡ b
and_true true = refl
and_true false = refl

module _ (s : Ports) (p : ℕ) (rest : List ℕ) (e : s.waiting ≡ p ∷ rest) where
  check_port : check_completions s ≡ check_waiters s p
  unfolding check_completions
  check_port = ap (check_ports s) e

  check_first :
      (w : ℕ) (ws : List ℕ)
      → (s.ports p).waiters ≡ w ∷ ws
      → check_completions s ≡ start_from s p w (s.ports p).queue
  unfolding check_waiters start_waiter
  check_first w ws f = check_port ∙ ap (start_first s p) f

  hand_lem :
      (w : ℕ) (ws : List ℕ) (g : Packet) (gs : List Packet)
      → (s.ports p).waiters ≡ w ∷ ws
      → s.packets w ≡ none
      → start_from s p w (g ∷ gs) ≡ returns (handed s p rest w ws g gs)
  unfolding start_from hand_over is_linked unlink
  hand_lem w ws g gs f idle = rw (f, e, idle, same_== w, same_== p, and_true (is_empty ws))

  hand_step :
      (w : ℕ) (ws : List ℕ) (g : Packet) (gs : List Packet)
      → (s.ports p).waiters ≡ w ∷ ws
      → (s.ports p).queue ≡ g ∷ gs
      → s.packets w ≡ none
      → check_completions s ≡ returns (handed s p rest w ws g gs)
  hand_step w ws g gs f q idle =
      check_first w ws f ∙ ap (start_from s p w) q ∙ hand_lem w ws g gs f idle

-- Other waiters stay as they are.
still_idle :
    (s s' : Ports) (ws : List ℕ)
    → ((t : ℕ) → is_linked ws t ≡ true → s'.packets t ≡ s.packets t)
    → AreIdle s ws
    → AreIdle s' ws
unfolding AreIdle is_linked
still_idle s s' [] same idle = tt
still_idle s s' (w ∷ ws) same (none_yet, once, idle) = (
  same w (ground (arith, same_== w)) ∙ none_yet,
  once,
  still_idle s s' ws (λ t in_ws. same t (ground arith)) idle,
)

apart : (ws : List ℕ) (w t : ℕ) → is_linked ws w ≡ false → is_linked ws t ≡ true → (w == t) ≡ false
apart ws w t out on = elim (Bool-cases (w == t)) [
  | inr e ↦ e
  | inl e ↦ cc (rw (==→≡ w t e) at out, on)
]

-- `s'` is `s` after each waiter of the port got a packet.
pub record IsServed (s s' : Ports) (p : ℕ) (rest ws : List ℕ) (gs left : List Packet) : Type 0 where
  pub port : s'.ports p ≡ record (s.ports p) { queue = left; waiters = [] }
  pub waiting : s'.waiting ≡ rest
  pub delivered : Delivered s' ws gs
  pub other_ports : (q : ℕ) → q ≢ p → s'.ports q ≡ s.ports q
  pub other_threads :
      (t : ℕ) → is_linked ws t ≡ false → (s'.packets t ≡ s.packets t) × (s'.running t ≡ s.running t)

handed_idle :
    (s : Ports) (p : ℕ) (rest : List ℕ) (w : ℕ) (ws : List ℕ) (g : Packet) (gs : List Packet)
    → is_linked ws w ≡ false
    → AreIdle s ws
    → AreIdle (handed s p rest w ws g gs) ws
handed_idle s p rest w ws g gs once idle =
    still_idle s (handed s p rest w ws g gs) ws (λ t on. rw (apart ws w t once on)) idle

-- A port that waits for idle threads, with more waiters than packets: after it handed over all its
-- packets, the next time that no thread is active an assertion fails.
pub idle_checks_short :
    (gs : List Packet) (ws : List ℕ) (rest : List ℕ) (s : Ports) (p : ℕ)
    → s.waiting ≡ p ∷ rest
    → (s.ports p).waiters ≡ ws
    → (s.ports p).queue ≡ gs
    → length gs < length ws
    → AreIdle s ws
    → idle_checks (suc (length gs)) s ≡ aborts
unfolding idle_checks AreIdle start_from
idle_checks_short gs [] rest s p e f q h idle = absurd (omega (arith, h))
idle_checks_short [] (w ∷ ws) rest s p e f q h idle =
    let stops = check_first s p rest e w ws f ∙ ap (start_from s p w) q in rw stops
idle_checks_short (g ∷ gs) (w ∷ []) rest s p e f q h idle = absurd (omega (arith, h))
idle_checks_short (g ∷ gs) (w ∷ w2 ∷ ws) rest s p e f q h (none_yet, once, idle) =
    let here : (p == p) ≡ true = same_== p in
    rw (hand_step s p rest e w (w2 ∷ ws) g gs f q none_yet) (
      idle_checks_short gs (w2 ∷ ws) rest (handed s p rest w (w2 ∷ ws) g gs) p refl (rw here)
        (rw here) (omega (arith, h)) (handed_idle s p rest w (w2 ∷ ws) g gs once idle))

-- What `set` leaves while the system is busy.
abbrev queued : Ports → ℕ → Packet → Ports
queued s p packet = record s {
  ports = put s.ports p (record (s.ports p) { queue = packet ∷ [] });
  waiting = p ∷ [];
}

busy_set :
    (active : ℕ) (s : Ports) (p : ℕ) (packet : Packet) (w : ℕ) (ws : List ℕ)
    → (s.ports p).waiters ≡ w ∷ ws
    → (s.ports p).queue ≡ []
    → s.waiting ≡ []
    → (s.ports p).num_threads ≤ active
    → set active s p packet ≡ returns (queued s p packet)
unfolding set serve port_wait_idle is_linked
busy_set active s p packet w ws f q e busy =
    let here : (p == p) ≡ true = same_== p in
    let full : leb (s.ports p).num_threads active ≡ true = ground arith in rw (f, q, here, full, e)

-- Let two or more threads wait on a port without packets, while no port waits for idle threads. If a
-- packet is set while as many threads are active as the port may have, then the second time that no
-- thread is active an assertion fails.
pub set-idle_checks :
    (active : ℕ) (s : Ports) (p : ℕ) (packet : Packet) (w w2 : ℕ) (ws : List ℕ)
    → (s.ports p).waiters ≡ w ∷ w2 ∷ ws
    → (s.ports p).queue ≡ []
    → s.waiting ≡ []
    → (s.ports p).num_threads ≤ active
    → AreIdle s (w ∷ w2 ∷ ws)
    → (set active s p packet >>= idle_checks 2) ≡ aborts
set-idle_checks active s p packet w w2 ws f q e busy idle =
    let here : (p == p) ≡ true = same_== p in
    rw (busy_set active s p packet w (w2 ∷ ws) f q e busy) (
      idle_checks_short (packet ∷ []) (w ∷ w2 ∷ ws) [] (queued s p packet) p refl (rw here f)
        (rw here) (omega arith)
        (still_idle s (queued s p packet) (w ∷ w2 ∷ ws) (λ t on. refl) idle))
