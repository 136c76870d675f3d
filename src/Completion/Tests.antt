-- ===== src/Completion/Tests.antt =====
-- Completion ports of kernel/completion.cpp on an example.
use ring3k.Prelude.{ℕ, ◌≡◌, refl, false, none, List, [], ◌∷◌, arith}
use ring3k.Prelude.Checked.{aborts, ◌>>=◌}
use ring3k.Completion.{Packet, Ports, set, is_linked}
use ring3k.Completion.Idle.{idle_checks, AreIdle, set-idle_checks}

abbrev packet : ℕ → Packet
packet n = record { key = n; value = 0; status = 0; info = 0 }

abbrev two : List ℕ
two = 7 ∷ 8 ∷ []

-- Port 1 of one thread, on which the threads 7 and 8 wait, with some packets.
abbrev busy : List Packet → Ports
busy queue = record {
  ports = λ q. record { num_threads = 1; queue = queue; waiters = two };
  waiting = 1 ∷ [];
  packets = λ t. none;
  running = λ t. false;
}

-- The same threads wait, and nothing was sent.
abbrev quiet : Ports
quiet = record (busy []) { waiting = [] }

quiet-AreIdle : AreIdle quiet two
unfolding AreIdle is_linked
quiet-AreIdle = (refl, refl, (refl, refl, tt))

set-idle_checks_example : (set 1 quiet 1 (packet 3) >>= idle_checks 2) ≡ aborts
set-idle_checks_example =
    set-idle_checks 1 quiet 1 (packet 3) 7 8 [] refl refl refl (omega arith) quiet-AreIdle
