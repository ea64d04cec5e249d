-- ===== src/Probe/Runs/Stuck.antt =====
-- A call of Run that waits for good: internal/client/service/probe.go.
use chat_libp2p.Common.{ℕ, ◌≡◌, ◌⊎◌, false, Option}
use chat_libp2p.Probe.Runs.{Phase, Prober, Act, turn}

-- The turn of one call or of the other.
abbrev pub IsTurnOf : ℕ → ℕ → Act → Type 0
IsTurnOf r q a = (a ≡ turn r) ⊎ (a ≡ turn q)

-- Two calls, of which `q` is not cancelled: how far they are, and who holds the lock.
record Pair (q r : ℕ) (a b : Phase) (h : Option ℕ) (s : Prober) : Type 0 where
  at_q : s.phase q ≡ a
  at_r : s.phase r ≡ b
  held : s.holder ≡ h
  open' : s.shut ≡ false
  alive : s.cancelled q ≡ false
