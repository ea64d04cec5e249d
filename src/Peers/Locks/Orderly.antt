-- ===== src/Peers/Locks/Orderly.antt =====
-- What holds of every call of Save: internal/client/service/peer.go.
use chat_libp2p.Common.{
  put, put_same, put_rel, ℕ, ◌≡◌, ◌≢◌, ◌⊎◌, ◌∙◌, refl, sym, ap, subst, Bool, true, false, Option,
  none, some, List, [], ◌∷◌, inl, inr,
}
use mathlib.Core.Option.{some-injective}
use chat_libp2p.Peers.Locks.{
  Slot, absent, saved, mutex, Phase, idle, returned, waiting, checking, inside, leaving, Locks,
  start, goes, begin, lock, unlock, recheck, finish, next_step, step, run,
}

abbrev pub Known : Slot → Type 0
Known absent = ⊥
Known saved = Unit {0}
Known (mutex m) = Unit {0}

-- A call that has the mutex is its holder, and the body is run only while the store has the mutex.
abbrev pub At : ℕ → Slot → Option ℕ → Phase → ℕ → Type 0
At k slot h idle t = Unit {0}
At k slot h returned t = Unit {0}
At k slot h (waiting m) t = (m ≡ k) × Known slot
At k slot h (checking m) t = (m ≡ k) × Known slot × (h ≡ some t)
At k slot h (inside m) t = (m ≡ k) × (slot ≡ mutex k) × (h ≡ some t)
At k slot h (leaving m) t = (m ≡ k) × Known slot × (h ≡ some t)

abbrev pub IsLocked : Phase → Type 0
IsLocked (checking m) = Unit {0}
IsLocked (inside m) = Unit {0}
IsLocked (leaving m) = Unit {0}
IsLocked _ = ⊥

-- There is one mutex, `k`, that the store may have and that calls wait for or have.
pub record Orderly (k : ℕ) (s : Locks) : Type 0 where
  pub only : (m : ℕ) → s.slot ≡ mutex m → m ≡ k
  pub all_at : (t : ℕ) → At k s.slot (s.holder k) (s.phase t) t
  pub locked : (t : ℕ) → s.holder k ≡ some t → IsLocked (s.phase t)

not_other : (t u : ℕ) (h : Option ℕ) → u ≢ t → (h ≡ some t) ⊎ (h ≡ none) → h ≢ some u
not_other t u h ne (inl e) f = ne (some-injective u t (sym f ∙ e))
not_other t u h ne (inr e) f = cc (e, f)

-- What another call is at stays true while the lock is taken or left, or the store is written by the holder.
others :
    (k t u : ℕ) (slot slot' : Slot) (h h' : Option ℕ) (p : Phase)
    → u ≢ t
    → (h ≡ some t) ⊎ (h ≡ none)
    → (Known slot → Known slot')
    → At k slot h p u
    → At k slot' h' p u
others k t u slot slot' h h' idle ne free known a = tt
others k t u slot slot' h h' returned ne free known a = tt
others k t u slot slot' h h' (waiting m) ne free known a = (a.0, known a.1)
others k t u slot slot' h h' (checking m) ne free known a = absurd (not_other t u h ne free a.2)
others k t u slot slot' h h' (inside m) ne free known a = absurd (not_other t u h ne free a.2)
others k t u slot slot' h h' (leaving m) ne free known a = absurd (not_other t u h ne free a.2)

-- A step of one call that takes, leaves or keeps the lock that nobody else has.
taken-Orderly :
    (k t : ℕ) (s : Locks) (slot : Slot) (holder : ℕ → Option ℕ) (p : Phase)
    → Orderly k s
    → (s.holder k ≡ some t) ⊎ (s.holder k ≡ none)
    → (Known s.slot → Known slot)
    → ((m : ℕ) → slot ≡ mutex m → m ≡ k)
    → At k slot (holder k) p t
    → ((u : ℕ) → holder k ≡ some u → (u ≡ t) × IsLocked p)
    → Orderly k (record { slot = slot; holder = holder; phase = put t p s.phase })
taken-Orderly k t s slot holder p v free known only at held = record {
  only = only;
  all_at =
      put_rel (λ u q. At k slot (holder k) q u) t p s.phase at
        (λ u ne.
          others k t u s.slot slot (s.holder k) (holder k) (s.phase u) ne free known (v.all_at u));
  locked =
      put_rel (λ u q. holder k ≡ some u → IsLocked q) t p s.phase (λ e. (held t e).1)
        (λ u ne e. absurd (ne (held u e).0));
}

-- A step of a call that does not have the lock, and leaves the lock and the store as they are.
kept-Orderly :
    (k t : ℕ) (s : Locks) (p : Phase)
    → Orderly k s
    → ¬ IsLocked (s.phase t)
    → At k s.slot (s.holder k) p t
    → Orderly k (goes t p s)
kept-Orderly k t s p v without at = record {
  only = v.only;
  all_at = put_rel (λ u q. At k s.slot (s.holder k) q u) t p s.phase at (λ u ne. v.all_at u);
  locked =
      put_rel (λ u q. s.holder k ≡ some u → IsLocked q) t p s.phase
        (λ e. absurd (without (v.locked t e))) (λ u ne e. v.locked u e);
}

Known-mutex : (slot : Slot) (m : ℕ) → slot ≡ mutex m → Known slot
Known-mutex slot m e = subst Known (sym e) tt

-- Before the first call there is no mutex, and every call has yet to begin or has returned.
all_free : (k j t : ℕ) (h h' : Option ℕ) (p : Phase) → At k absent h p t → At j (mutex j) h' p t
all_free k j t h h' idle a = tt
all_free k j t h h' returned a = tt
all_free k j t h h' (waiting m) a = absurd a.1
all_free k j t h h' (checking m) a = absurd a.1
all_free k j t h h' (inside m) a = cc a.1
all_free k j t h h' (leaving m) a = absurd a.1

abbrev pub IsOrderly : Locks → Type 0
IsOrderly s = (k : ℕ) × Orderly k s

begin_first : (k t : ℕ) (s : Locks) → s.slot ≡ absent → Orderly k s → IsOrderly (begin t absent s)
unfolding begin
begin_first k t s e v = (
  t,
  record {
    only = λ m q. cc q;
    all_at =
        put_rel (λ u q. At t (mutex t) (put t (some t) s.holder t) q u) t (inside t) s.phase
          (refl, refl, put_same t (some t) s.holder)
          (λ u ne.
            all_free k t u (s.holder k) _ (s.phase u)
              (subst (λ x. At k x (s.holder k) (s.phase u) u) e (v.all_at u)));
    locked =
        put_rel (λ u q. put t (some t) s.holder t ≡ some u → IsLocked q) t (inside t) s.phase
          (λ q. tt)
          (λ u ne q.
            absurd (not_other t u (some t) ne (inl refl) (sym (put_same t (some t) s.holder) ∙ q)));
  },
)

begin-IsOrderly :
    (k t : ℕ) (slot : Slot) (s : Locks)
    → s.slot ≡ slot
    → ¬ IsLocked (s.phase t)
    → Orderly k s
    → IsOrderly (begin t slot s)
unfolding begin
begin-IsOrderly k t absent s e n v = begin_first k t s e v
begin-IsOrderly k t saved s e n v = (k, kept-Orderly k t s returned v n tt)
begin-IsOrderly k t (mutex m) s e n v =
    (k, kept-Orderly k t s (waiting m) v n (v.only m e, Known-mutex s.slot m e))

lock-Orderly :
    (k t m : ℕ) (h : Option ℕ) (s : Locks)
    → s.holder m ≡ h
    → m ≡ k
    → Known s.slot
    → Orderly k s
    → Orderly k (lock t m h s)
unfolding lock
lock-Orderly k t m (some u) s e same known v = v
lock-Orderly k t m none s e same known v =
    let at_k : put m (some t) s.holder k ≡ some t = rw same (put_same k (some t) s.holder) in
    taken-Orderly k t s s.slot (put m (some t) s.holder) (checking m) v (inr (rw (← same) e))
      (λ x. x) v.only (same, known, at_k) (λ u q. (some-injective u t (sym q ∙ at_k), tt))

unlock-Orderly :
    (k t m : ℕ) (s : Locks) → m ≡ k → s.holder k ≡ some t → Orderly k s → Orderly k (unlock t m s)
unfolding unlock
unlock-Orderly k t m s same has v =
    let at_k : put m none s.holder k ≡ none = rw same (put_same k none s.holder) in
    taken-Orderly k t s s.slot (put m none s.holder) returned v (inl has) (λ x. x) v.only tt
      (λ u q. cc (at_k, q))

recheck-Orderly :
    (k t m : ℕ) (slot : Slot) (s : Locks)
    → s.slot ≡ slot
    → m ≡ k
    → s.holder k ≡ some t
    → Orderly k s
    → Orderly k (recheck t m slot s)
unfolding recheck
recheck-Orderly k t m absent s e same has v = unlock-Orderly k t m s same has v
recheck-Orderly k t m saved s e same has v = unlock-Orderly k t m s same has v
recheck-Orderly k t m (mutex j) s e same has v =
    taken-Orderly k t s s.slot s.holder (inside m) v (inl has) (λ x. x) v.only
      (same, e ∙ ap mutex (v.only j e), has) (λ u q. (some-injective u t (sym q ∙ has), tt))

finish-Orderly :
    (k t m : ℕ) (works : Bool) (s : Locks)
    → m ≡ k
    → s.slot ≡ mutex k
    → s.holder k ≡ some t
    → Orderly k s
    → Orderly k (finish t m works s)
unfolding finish
finish-Orderly k t m true s same there has v =
    taken-Orderly k t s saved s.holder (leaving m) v (inl has) (λ x. tt) (λ j q. cc q)
      (same, tt, has) (λ u q. (some-injective u t (sym q ∙ has), tt))
finish-Orderly k t m false s same there has v =
    taken-Orderly k t s s.slot s.holder (leaving m) v (inl has) (λ x. x) v.only
      (same, Known-mutex s.slot k there, has) (λ u q. (some-injective u t (sym q ∙ has), tt))

next-IsOrderly :
    (k t : ℕ) (works : Bool) (p : Phase) (s : Locks)
    → s.phase t ≡ p
    → Orderly k s
    → At k s.slot (s.holder k) p t
    → IsOrderly (next_step t works p s)
unfolding next_step
next-IsOrderly k t works idle s e v a =
    begin-IsOrderly k t s.slot s refl (λ x. subst IsLocked e x) v
next-IsOrderly k t works returned s e v a = (k, v)
next-IsOrderly k t works (waiting m) s e v a = (k, lock-Orderly k t m (s.holder m) s refl a.0 a.1 v)
next-IsOrderly k t works (checking m) s e v a = (k, recheck-Orderly k t m s.slot s refl a.0 a.2 v)
next-IsOrderly k t works (inside m) s e v a = (k, finish-Orderly k t m works s a.0 a.1 a.2 v)
next-IsOrderly k t works (leaving m) s e v a = (k, unlock-Orderly k t m s a.0 a.2 v)

pub run-IsOrderly : (xs : List (ℕ × Bool)) (s : Locks) → IsOrderly s → IsOrderly (run xs s)
unfolding run step
run-IsOrderly [] s v = v
run-IsOrderly ((t, works) ∷ xs) s (k, v) =
    run-IsOrderly xs (step (t, works) s)
      (next-IsOrderly k t works (s.phase t) s refl v (v.all_at t))

pub start-IsOrderly : IsOrderly start
start-IsOrderly = (0, record { only = λ m q. cc q; all_at = λ t. tt; locked = λ t q. cc q })
