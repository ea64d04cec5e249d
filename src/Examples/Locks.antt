-- ===== src/Examples/Locks.antt =====
-- Interleaved calls: internal/client/service.
use chat_libp2p.Common.{ℕ, ◌≡◌, ◌≢◌, refl, arith, Bool, true, false, List, [], ◌∷◌}
use chat_libp2p.Peers.Locks as Save
use chat_libp2p.Peers.Locks.{inside, waiting, saved}
use chat_libp2p.Probe.Runs as Probing
use chat_libp2p.Probe.Runs.{turn}
use chat_libp2p.Peers.Locks.Exclusion.{run_exclusive, run_once}

-- Two calls, of which the second waits for the first and then finds the peer saved.
abbrev two_calls : List (ℕ × Bool)
two_calls = (1, true) ∷ (2, true) ∷ (1, true) ∷ []

abbrev one_call : List (ℕ × Bool)
one_call = (1, true) ∷ (2, true) ∷ []

abbrev the_rest : List (ℕ × Bool)
the_rest = (1, true) ∷ (2, true) ∷ (2, true) ∷ []

first_inside : (Save.run one_call Save.start).phase 1 ≡ inside 1
unfolding Save.run Save.step Save.next_step Save.begin
first_inside = refl

two_ne_one : ◌≢◌ {A = ℕ} 2 1
two_ne_one e = omega (arith, e)

run_exclusive_example : (Save.run one_call Save.start).phase 2 ≢ inside 1
run_exclusive_example = run_exclusive one_call 1 2 1 1 two_ne_one first_inside

run_once_example :
    (Save.run the_rest (Save.step (1, true) (Save.run one_call Save.start))).phase 2 ≢ inside 1
run_once_example = run_once one_call the_rest 1 2 1 1 first_inside

-- The first probe loops, and two more calls of Run have cancelled it.
abbrev overtaken : List Probing.Act
overtaken =
    turn 1 ∷ turn 1 ∷ turn 1 ∷ turn 2 ∷ turn 3 ∷ turn 1 ∷ turn 1 ∷ turn 1 ∷ turn 2 ∷ turn 2 ∷ []

third_waits : (Probing.acts overtaken Probing.new_probe).phase 3 ≡ Probing.waiting
unfolding Probing.acts Probing.act Probing.next_step Probing.call_stop Probing.lock Probing.round
third_waits = refl

second_alive : (Probing.acts overtaken Probing.new_probe).cancelled 2 ≡ false
unfolding Probing.acts Probing.act Probing.next_step Probing.call_stop Probing.lock Probing.round
second_alive = refl

still_open : (Probing.acts overtaken Probing.new_probe).shut ≡ false
unfolding Probing.acts Probing.act Probing.next_step Probing.call_stop Probing.lock Probing.round
still_open = refl
