-- ===== src/Peers/Locks.antt =====
-- internal/client/service/peer.go: the locks of Save for one peer. A call of Save is known by a number,
-- also that of the mutex that it makes. Between two steps of one call any others may run.
pub mod Orderly
pub mod Exclusion
use chat_libp2p.Common.{ℕ, Bool, true, false, Option, none, some, List, [], ◌∷◌, put}

-- What the store has for the peer: nothing, a mutex, or struct{}{}.
pub data Slot : Type 0 where
  absent saved : Slot
  mutex : ℕ → Slot

-- How far a call is: `checking` has the mutex of another call and has not looked at the store again,
-- `inside` runs the body, and `leaving` has only its Unlock left.
pub data Phase : Type 0 where
  idle returned : Phase
  waiting checking inside leaving : ℕ → Phase

-- The mutexes' holders, and the calls.
pub record Locks : Type 0 where
  pub slot : Slot
  pub holder : ℕ → Option ℕ
  pub phase : ℕ → Phase

abbrev pub start : Locks
start = record { slot = absent; holder = λ m. none; phase = λ t. idle }

abbrev pub goes : ℕ → Phase → Locks → Locks
goes t p s = record s { phase = put t p s.phase }

-- LoadOrStore of the call's own mutex, which is locked, and what the type switch takes.
unfoldable pub begin : ℕ → Slot → Locks → Locks
begin t absent s = goes t (inside t) (record s { slot = mutex t; holder = put t (some t) s.holder })
begin t (mutex m) s = goes t (waiting m) s
begin t saved s = goes t returned s

-- Lock waits for the holder.
unfoldable pub lock : ℕ → ℕ → Option ℕ → Locks → Locks
lock t m none s = goes t (checking m) (record s { holder = put m (some t) s.holder })
lock t m (some u) s = s

unfoldable pub unlock : ℕ → ℕ → Locks → Locks
unlock t m s = goes t returned (record s { holder = put m none s.holder })

-- "double check"
unfoldable pub recheck : ℕ → ℕ → Slot → Locks → Locks
unfolding unlock
recheck t m (mutex k) s = goes t (inside m) s
recheck t m absent s = unlock t m s
recheck t m saved s = unlock t m s

-- The deferred function, up to its Unlock: whether the body returned no error.
unfoldable pub finish : ℕ → ℕ → Bool → Locks → Locks
finish t m true s = goes t (leaving m) (record s { slot = saved })
finish t m false s = goes t (leaving m) s

-- The next step of a call, if it has one; `works` is what its body comes to.
unfoldable pub next_step : ℕ → Bool → Phase → Locks → Locks
unfolding begin lock recheck finish unlock
next_step t works idle s = begin t s.slot s
next_step t works returned s = s
next_step t works (waiting m) s = lock t m (s.holder m) s
next_step t works (checking m) s = recheck t m s.slot s
next_step t works (inside m) s = finish t m works s
next_step t works (leaving m) s = unlock t m s

unfoldable pub step : ℕ × Bool → Locks → Locks
unfolding next_step
step (t, works) s = next_step t works (s.phase t) s

-- A schedule: whose turn it is.
unfoldable pub run : List (ℕ × Bool) → Locks → Locks
unfolding step
run [] s = s
run (x ∷ xs) s = run xs (step x s)
