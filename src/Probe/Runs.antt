-- ===== src/Probe/Runs.antt =====
-- internal/client/service/probe.go: the locks and contexts of Run and Stop. A call of Run is known by a
-- number, also that of the context that it makes; its goroutine goes on under that number. Between two
-- steps of one call any others may run.
pub mod Single
pub mod Stuck
use chat_libp2p.Common.{ℕ, Bool, true, false, ◌||◌, Option, none, some, List, [], ◌∷◌, put}

-- Run has called `stopFunc` and waits for `runMU`, has it, or its goroutine loops, has closed the channel,
-- or has called `stopFunc` again.
pub data Phase : Type 0 where
  idle waiting entered looping closing unlocking ended : Phase

-- The context that `stopFunc` cancels, the contexts that were cancelled, whether the program's own
-- context ended, the holder of `runMU`, and the calls.
pub record Prober : Type 0 where
  pub stop : Option ℕ
  pub cancelled : ℕ → Bool
  pub shut : Bool
  pub holder : Option ℕ
  pub phase : ℕ → Phase

-- NewProbe
abbrev pub new_probe : Prober
new_probe = record {
  stop = none;
  cancelled = λ r. false;
  shut = false;
  holder = none;
  phase = λ r. idle;
}

abbrev pub goes : ℕ → Phase → Prober → Prober
goes r p s = record s { phase = put r p s.phase }

-- `p.stopFunc()`, at first a function that does nothing.
unfoldable pub call_stop : Option ℕ → Prober → Prober
call_stop none s = s
call_stop (some r) s = record s { cancelled = put r true s.cancelled }

unfoldable pub lock : ℕ → Option ℕ → Prober → Prober
lock r none s = goes r entered (record s { holder = some r })
lock r (some q) s = s

-- The loop ends when its context does; until then it goes round.
unfoldable pub round : ℕ → Bool → Prober → Prober
round r true s = goes r closing s
round r false s = s

unfoldable pub next_step : ℕ → Phase → Prober → Prober
unfolding call_stop lock round
next_step r idle s = goes r waiting (call_stop s.stop s)
next_step r waiting s = lock r s.holder s
next_step r entered s = goes r looping (record s { stop = some r })
next_step r looping s = round r (s.cancelled r || s.shut) s
next_step r closing s = goes r unlocking (call_stop s.stop s)
next_step r unlocking s = goes r ended (record s { holder = none })
next_step r ended s = s

-- The next step of a call, a call of Stop, or the end of the program's context.
pub data Act : Type 0 where
  turn : ℕ → Act
  stops shuts : Act

unfoldable pub act : Act → Prober → Prober
unfolding next_step call_stop
act (turn r) s = next_step r (s.phase r) s
act stops s = call_stop s.stop s
act shuts s = record s { shut = true }

unfoldable pub acts : List Act → Prober → Prober
unfolding act
acts [] s = s
acts (a ∷ rest) s = acts rest (act a s)
