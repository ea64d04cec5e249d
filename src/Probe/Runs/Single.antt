-- ===== src/Probe/Runs/Single.antt =====
-- One probe at a time, and which calls stop it: internal/client/service/probe.go.
use chat_libp2p.Common.{
  put_rel, ℕ, ◌≡◌, ◌≢◌, ◌⊎◌, ◌∙◌, refl, sym, subst, Bool, true, false, ◌||◌, Option, none, some,
  List, [], ◌∷◌, inl, inr,
}
use mathlib.Core.Option.{some-injective}
use chat_libp2p.Probe.Runs.{
  Phase, idle, waiting, entered, looping, closing, unlocking, ended, Prober, new_probe, goes,
  call_stop, lock, round, next_step, Act, turn, stops, shuts, act, acts,
}

-- A call that is past `runMU` is its holder, and `stopFunc` cancels the context of the loop that runs.
abbrev pub At : Option ℕ → Option ℕ → Phase → ℕ → Type 0
At h stop entered r = h ≡ some r
At h stop looping r = (h ≡ some r) × (stop ≡ some r)
At h stop closing r = (h ≡ some r) × (stop ≡ some r)
At h stop unlocking r = h ≡ some r
At h stop _ r = Unit {0}

abbrev pub IsSingle : Prober → Type 0
IsSingle s = (r : ℕ) → At s.holder s.stop (s.phase r) r

not_other : (t u : ℕ) (h : Option ℕ) → u ≢ t → (h ≡ some t) ⊎ (h ≡ none) → h ≢ some u
not_other t u h ne (inl e) f = ne (some-injective u t (sym f ∙ e))
not_other t u h ne (inr e) f = cc (e, f)

others :
    (t u : ℕ) (h h' stop stop' : Option ℕ) (p : Phase)
    → u ≢ t
    → (h ≡ some t) ⊎ (h ≡ none)
    → At h stop p u
    → At h' stop' p u
others t u h h' stop stop' idle ne free a = tt
others t u h h' stop stop' waiting ne free a = tt
others t u h h' stop stop' entered ne free a = absurd (not_other t u h ne free a)
others t u h h' stop stop' looping ne free a = absurd (not_other t u h ne free a.0)
others t u h h' stop stop' closing ne free a = absurd (not_other t u h ne free a.0)
others t u h h' stop stop' unlocking ne free a = absurd (not_other t u h ne free a)
others t u h h' stop stop' ended ne free a = tt

-- A step of the call that has the lock, takes it or leaves it.
taken :
    (t : ℕ) (s u : Prober) (p : Phase)
    → IsSingle s
    → (s.holder ≡ some t) ⊎ (s.holder ≡ none)
    → u.phase ≡ s.phase
    → At u.holder u.stop p t
    → IsSingle (goes t p u)
taken t s u p v free same at =
    put_rel (λ r q. At u.holder u.stop q r) t p u.phase at
      (λ r ne.
        subst (λ f. At u.holder u.stop (f r) r) (sym same)
          (others t r s.holder u.holder s.stop u.stop (s.phase r) ne free (v r)))

call_stop-IsSingle : (o : Option ℕ) (s : Prober) → IsSingle s → IsSingle (call_stop o s)
unfolding call_stop
call_stop-IsSingle none s v = v
call_stop-IsSingle (some r) s v = v

goes-IsSingle :
    (t : ℕ) (s : Prober) (p : Phase) → IsSingle s → At s.holder s.stop p t → IsSingle (goes t p s)
goes-IsSingle t s p v at = put_rel (λ r q. At s.holder s.stop q r) t p s.phase at (λ r ne. v r)

call_stop_same :
    (o : Option ℕ) (s : Prober)
    → ((call_stop o s).holder ≡ s.holder) × ((call_stop o s).stop ≡ s.stop)
unfolding call_stop
call_stop_same none s = (refl, refl)
call_stop_same (some r) s = (refl, refl)

lock-IsSingle :
    (t : ℕ) (h : Option ℕ) (s : Prober) → s.holder ≡ h → IsSingle s → IsSingle (lock t h s)
unfolding lock
lock-IsSingle t none s e v = taken t s (record s { holder = some t }) entered v (inr e) refl refl
lock-IsSingle t (some q) s e v = v

round-IsSingle :
    (t : ℕ) (over : Bool) (s : Prober)
    → At s.holder s.stop closing t
    → IsSingle s
    → IsSingle (round t over s)
unfolding round
round-IsSingle t true s a v = goes-IsSingle t s closing v a
round-IsSingle t false s a v = v

next-IsSingle :
    (t : ℕ) (p : Phase) (s : Prober)
    → At s.holder s.stop p t
    → IsSingle s
    → IsSingle (next_step t p s)
unfolding next_step
next-IsSingle t idle s a v =
    goes-IsSingle t (call_stop s.stop s) waiting (call_stop-IsSingle s.stop s v) tt
next-IsSingle t waiting s a v = lock-IsSingle t s.holder s refl v
next-IsSingle t entered s a v =
    taken t s (record s { stop = some t }) looping v (inl a) refl (a, refl)
next-IsSingle t looping s a v = round-IsSingle t (s.cancelled t || s.shut) s a v
next-IsSingle t closing s a v =
    goes-IsSingle t (call_stop s.stop s) unlocking (call_stop-IsSingle s.stop s v)
      ((call_stop_same s.stop s).0 ∙ a.0)
next-IsSingle t unlocking s a v = taken t s (record s { holder = none }) ended v (inl a) refl tt
next-IsSingle t ended s a v = v

acts-IsSingle : (xs : List Act) (s : Prober) → IsSingle s → IsSingle (acts xs s)
unfolding acts act
acts-IsSingle [] s v = v
acts-IsSingle (turn t ∷ xs) s v =
    acts-IsSingle xs (next_step t (s.phase t) s) (next-IsSingle t (s.phase t) s (v t) v)
acts-IsSingle (stops ∷ xs) s v =
    acts-IsSingle xs (call_stop s.stop s) (call_stop-IsSingle s.stop s v)
acts-IsSingle (shuts ∷ xs) s v = acts-IsSingle xs (record s { shut = true }) v

pub reached : (xs : List Act) → IsSingle (acts xs new_probe)
reached xs = acts-IsSingle xs new_probe (λ r. tt)

pub loop_at :
    (s : Prober) (r : ℕ)
    → IsSingle s
    → s.phase r ≡ looping
    → (s.holder ≡ some r) × (s.stop ≡ some r)
loop_at s r v e = subst (λ p. At s.holder s.stop p r) e (v r)
