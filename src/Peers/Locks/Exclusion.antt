-- ===== src/Peers/Locks/Exclusion.antt =====
-- Who runs the body of Save: internal/client/service/peer.go.
use chat_libp2p.Common.{
  put, put_same, ℕ, ◌≡◌, ◌≢◌, ◌∙◌, refl, sym, subst, Bool, true, false, Option, none, some, List,
  [], ◌∷◌, Option-cases, inl, inr,
}
use mathlib.Core.Option.{some-injective}
use chat_libp2p.Peers.Locks.{
  Slot, absent, saved, mutex, Phase, idle, returned, waiting, checking, inside, leaving, Locks,
  start, begin, lock, unlock, recheck, finish, next_step, step, run,
}
use chat_libp2p.Peers.Locks.Orderly.{
  At, IsLocked, Orderly, IsOrderly, run-IsOrderly, start-IsOrderly,
}

begin-saved :
    (t : ℕ) (slot : Slot) (s : Locks)
    → s.slot ≡ saved
    → s.slot ≡ slot
    → (begin t slot s).slot ≡ saved
unfolding begin
begin-saved t absent s e f = cc (e, f)
begin-saved t saved s e f = e
begin-saved t (mutex m) s e f = e

lock-saved : (t m : ℕ) (h : Option ℕ) (s : Locks) → s.slot ≡ saved → (lock t m h s).slot ≡ saved
unfolding lock
lock-saved t m none s e = e
lock-saved t m (some u) s e = e

recheck-saved :
    (t m : ℕ) (slot : Slot) (s : Locks) → s.slot ≡ saved → (recheck t m slot s).slot ≡ saved
unfolding recheck unlock
recheck-saved t m absent s e = e
recheck-saved t m saved s e = e
recheck-saved t m (mutex j) s e = e

finish-saved :
    (t m : ℕ) (works : Bool) (s : Locks) → s.slot ≡ saved → (finish t m works s).slot ≡ saved
unfolding finish
finish-saved t m true s e = refl
finish-saved t m false s e = e

-- Once a call has saved the peer the store says so for good.
next-saved :
    (t : ℕ) (works : Bool) (p : Phase) (s : Locks)
    → s.slot ≡ saved
    → (next_step t works p s).slot ≡ saved
unfolding next_step unlock
next-saved t works idle s e = begin-saved t s.slot s e refl
next-saved t works returned s e = e
next-saved t works (waiting m) s e = lock-saved t m (s.holder m) s e
next-saved t works (checking m) s e = recheck-saved t m s.slot s e
next-saved t works (inside m) s e = finish-saved t m works s e
next-saved t works (leaving m) s e = e

run-saved : (ys : List (ℕ × Bool)) (s : Locks) → s.slot ≡ saved → (run ys s).slot ≡ saved
unfolding run step
run-saved [] s e = e
run-saved ((t, works) ∷ ys) s e =
    run-saved ys (step (t, works) s) (next-saved t works (s.phase t) s e)

inside_at :
    (s : Locks) (t m k : ℕ)
    → Orderly k s
    → s.phase t ≡ inside m
    → (s.slot ≡ mutex k) × (s.holder k ≡ some t)
inside_at s t m k v e =
    let (same, there, has) = subst (λ p. At k s.slot (s.holder k) p t) e (v.all_at t) in
    (there, has)

one_inside :
    (s : Locks) (t u m j : ℕ) → IsOrderly s → s.phase t ≡ inside m → s.phase u ≡ inside j → t ≡ u
one_inside s t u m j (k, v) e f =
    some-injective t u (sym (inside_at s t m k v e).1 ∙ (inside_at s u j k v f).1)

none_inside : (s : Locks) (t m : ℕ) → IsOrderly s → s.slot ≡ saved → s.phase t ≢ inside m
none_inside s t m (k, v) e f = cc (e, (inside_at s t m k v f).0)

-- However the calls of Save for one peer are interleaved, and whether their bodies fail or not, while one
-- call is in the body no other one is.
pub run_exclusive :
    (xs : List (ℕ × Bool)) (t u m j : ℕ)
    → u ≢ t
    → (run xs start).phase t ≡ inside m
    → (run xs start).phase u ≢ inside j
run_exclusive xs t u m j ne e f =
    ne (sym (one_inside (run xs start) t u m j (run-IsOrderly xs start start-IsOrderly) e f))

works-saved : (s : Locks) (t m : ℕ) → s.phase t ≡ inside m → (step (t, true) s).slot ≡ saved
unfolding step
works-saved s t m e =
    subst (λ p. (next_step t true p s).slot ≡ saved) (sym e)
      (unfold next_step in unfold finish in refl)

stepped : (x : ℕ × Bool) (s : Locks) → IsOrderly s → IsOrderly (step x s)
unfolding run
stepped x s v = run-IsOrderly (x ∷ []) s v

-- Once the body of a call of Save for a peer has ended without an error, no call for that peer is ever in
-- the body again, whatever came before and whatever follows.
pub run_once :
    (xs ys : List (ℕ × Bool)) (t u m j : ℕ)
    → (run xs start).phase t ≡ inside m
    → (run ys (step (t, true) (run xs start))).phase u ≢ inside j
run_once xs ys t u m j e =
    let s = run xs start in
    let v : IsOrderly (step (t, true) s) =
      stepped ((t, true)) s (run-IsOrderly xs start start-IsOrderly) in
    none_inside (run ys (step (t, true) s)) u j (run-IsOrderly ys (step (t, true) s) v)
      (run-saved ys (step (t, true) s) (works-saved s t m e))

goes_on : (u : ℕ) (s : Locks) (p q : Phase) → s.phase u ≡ p → p ≢ q → put u q s.phase u ≢ s.phase u
goes_on u s p q e ne f = ne (sym e ∙ sym f ∙ put_same u q s.phase)

recheck_moves :
    (u m : ℕ) (slot : Slot) (s : Locks)
    → s.phase u ≡ checking m
    → (recheck u m slot s).phase u ≢ s.phase u
unfolding recheck unlock
recheck_moves u m absent s e = goes_on u s (checking m) returned e (λ f. cc f)
recheck_moves u m saved s e = goes_on u s (checking m) returned e (λ f. cc f)
recheck_moves u m (mutex j) s e = goes_on u s (checking m) (inside m) e (λ f. cc f)

locked_moves :
    (u : ℕ) (s : Locks) (p : Phase)
    → s.phase u ≡ p
    → IsLocked p
    → (next_step u true p s).phase u ≢ s.phase u
unfolding next_step finish unlock
locked_moves u s idle e h = absurd h
locked_moves u s returned e h = absurd h
locked_moves u s (waiting m) e h = absurd h
locked_moves u s (checking m) e h = recheck_moves u m s.slot s e
locked_moves u s (inside m) e h = goes_on u s (inside m) (leaving m) e (λ f. cc f)
locked_moves u s (leaving m) e h = goes_on u s (leaving m) returned e (λ f. cc f)

lock_moves :
    (t m : ℕ) (h : Option ℕ) (s : Locks)
    → s.phase t ≡ waiting m
    → h ≡ none
    → (lock t m h s).phase t ≢ s.phase t
unfolding lock
lock_moves t m none s e f = goes_on t s (waiting m) (checking m) e (λ g. cc g)
lock_moves t m (some u) s e f = cc f

-- However the calls of Save for one peer are interleaved, while one waits for the mutex there is a call
-- that can go on: itself, if nobody has the mutex, or else the one that has it.
pub run_progress :
    (xs : List (ℕ × Bool)) (t m : ℕ)
    → (run xs start).phase t ≡ waiting m
    → (u : ℕ) × ((step (u, true) (run xs start)).phase u ≢ (run xs start).phase u)
unfolding step
run_progress xs t m e =
    let s = run xs start in
    let (k, v) = run-IsOrderly xs start start-IsOrderly in
    let same : m ≡ k = (subst (λ p. At k s.slot (s.holder k) p t) e (v.all_at t)).0 in
    elim (Option-cases (s.holder m)) [
      | inl free ↦ (
        t,
        subst (λ p. (next_step t true p s).phase t ≢ s.phase t) (sym e)
            (unfold next_step in lock_moves t m (s.holder m) s e free),
      )
      | inr (u, has) ↦ (u, locked_moves u s (s.phase u) refl (v.locked u (rw (← same) has)))
    ]
