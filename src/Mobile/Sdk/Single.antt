-- ===== src/Mobile/Sdk/Single.antt =====
-- How many notifiers, sessions and clients of the SDK are alive: cmd/client/mobile/main.go.
use chat_libp2p.Common.{
  ℕ, suc, ◌<◌, ◌≤◌, ◌≡◌, ◌≢◌, ◌∙◌, refl, sym, ap, arith, Bool, true, false, Option, none, some, ltb,
  put, put_same, ◌==◌, ==_iff, Bool-cases, inl, inr,
}
use mathlib.Core.Option.{some-injective}
use chat_libp2p.Mobile.Sdk.{
  Handles, Sdk, no_handles, halt, renew, discard, end_handle, place_stop, init_round, take_stop,
}

-- An object that is not halted is the one that is held; objects that are not made yet are not halted.
pub record IsSingle (s : Handles) : Type 0 where
  pub alive-held : (i : ℕ) → i < s.made → s.halted i ≡ false → s.held ≡ some i
  pub unmade : (i : ℕ) → s.made ≤ i → s.halted i ≡ false
  pub held-made : (i : ℕ) → s.held ≡ some i → i < s.made

halt_keeps : (o : Option ℕ) (h : ℕ → Bool) (i : ℕ) → halt o h i ≡ false → h i ≡ false
unfolding halt
halt_keeps none h i e = e
halt_keeps (some j) h i e = ground arith

halt_held : (o : Option ℕ) (h : ℕ → Bool) (i : ℕ) → o ≡ some i → halt o h i ≡ true
unfolding halt
halt_held none h i e = cc e
halt_held (some j) h i e = ground (arith, some-injective j i e)

halt_other : (o : Option ℕ) (h : ℕ → Bool) (i : ℕ) → o ≢ some i → halt o h i ≡ h i
unfolding halt
halt_other none h i ne = refl
halt_other (some j) h i ne = elim (Bool-cases (i == j)) [
  | inl same ↦ absurd (ne (ap some (sym ((==_iff i j).0 same))))
  | inr other ↦ rw other refl
]

not_held : (s : Handles) (i : ℕ) → IsSingle s → s.made ≤ i → s.held ≢ some i
not_held s i g le e = omega (arith, g.held-made i e)

pub none_alive :
    (s : Handles) (i : ℕ) → IsSingle s → i < s.made → halt s.held s.halted i ≡ false → ⊥
none_alive s i g lt e =
    cc (halt_held s.held s.halted i (g.alive-held i lt (halt_keeps s.held s.halted i e)), e)

still_unmade : (s : Handles) (i : ℕ) → IsSingle s → s.made ≤ i → halt s.held s.halted i ≡ false
still_unmade s i g le = halt_other s.held s.halted i (not_held s i g le) ∙ g.unmade i le

pub IsSingle-none : IsSingle no_handles
IsSingle-none = record {
  alive-held = λ i lt e. absurd (omega (arith, lt));
  unmade = λ i le. refl;
  held-made = λ i e. cc e;
}

last_made : (i n : ℕ) → i < suc n → ltb i n ≡ false → n ≡ i
last_made i n lt new = ground arith

pub IsSingle-renew : (s : Handles) → IsSingle s → IsSingle (renew s)
unfolding renew
IsSingle-renew s g = record {
  alive-held = λ i lt e. elim (Bool-cases (ltb i s.made)) [
    | inl old ↦ absurd (none_alive s i g (ground arith) e)
    | inr new ↦ ap some (last_made i s.made lt new)
  ];
  unmade = λ i le. still_unmade s i g (omega (arith, le));
  held-made = λ i e. omega (arith, some-injective s.made i e);
}

pub IsSingle-discard : (s : Handles) → IsSingle s → IsSingle (discard s)
unfolding discard
IsSingle-discard s g = record {
  alive-held = λ i lt e. absurd (none_alive s i g lt e);
  unmade = λ i le. still_unmade s i g le;
  held-made = λ i e. cc e;
}

IsSingle-halt :
    (j : ℕ) (s : Handles)
    → j < s.made
    → IsSingle s
    → IsSingle (record s { halted = halt (some j) s.halted })
IsSingle-halt j s small g = record {
  alive-held = λ i lt e. g.alive-held i lt (halt_keeps (some j) s.halted i e);
  unmade = λ i le.
      halt_other (some j) s.halted i (λ q. omega (arith, some-injective j i q)) ∙ g.unmade i le;
  held-made = g.held-made;
}

pub IsSingle-end_handle : (j : ℕ) (s : Handles) → IsSingle s → IsSingle (end_handle j s)
unfolding end_handle
IsSingle-end_handle j s g = elim (Bool-cases (ltb j s.made)) [
  | inl old ↦ rw old (IsSingle-halt j s (ground arith) g)
  | inr new ↦ rw new g
]

-- A call of Init whose cancel function was placed, and not called since, is the one in `stopper`.
pub record IsStoppable (s : Sdk) : Type 0 where
  pub running : (n : ℕ) → s.placed n ≡ true → s.cancelled n ≡ false → s.stopper ≡ some n

pub stopped_one :
    (s : Sdk) (old n : ℕ)
    → IsStoppable s
    → s.stopper ≡ some old
    → s.placed n ≡ true
    → put old true s.cancelled n ≡ false
    → ⊥
unfolding halt
stopped_one s old n g o p c = cc (
  put_same old true s.cancelled,
  some-injective old n (sym o ∙ g.running n p (halt_keeps (some old) s.cancelled n c)),
  c,
)

stopper_out :
    (s : Sdk) (old : ℕ)
    → IsStoppable s
    → s.stopper ≡ some old
    → IsStoppable (record s { stopper = none; cancelled = put old true s.cancelled })
stopper_out s old g o = record { running = λ n p c. absurd (stopped_one s old n g o p c) }

stopper_in :
    (s : Sdk) (n : ℕ)
    → IsStoppable s
    → s.stopper ≡ none
    → IsStoppable (record s { stopper = some n; placed = put n true s.placed })
stopper_in s n g o = record {
  running = λ m p c. elim (Bool-cases (m == n)) [
    | inl same ↦ ap some (sym ((==_iff m n).0 same))
    | inr other ↦ absurd (cc (g.running m (ground arith) c, o))
  ];
}

IsStoppable-place_stop :
    (n : ℕ) (o : Option ℕ) (s : Sdk)
    → s.stopper ≡ o
    → IsStoppable s
    → IsStoppable (place_stop n o s)
unfolding place_stop
IsStoppable-place_stop n none s e g = stopper_in s n g e
IsStoppable-place_stop n (some old) s e g = stopper_out s old g e

pub IsStoppable-init_round : (n : ℕ) (s : Sdk) → IsStoppable s → IsStoppable (init_round n s)
unfolding init_round
IsStoppable-init_round n s g = elim (Bool-cases (s.placed n)) [
  | inl done ↦ rw done g
  | inr waits ↦ rw waits (IsStoppable-place_stop n s.stopper s refl g)
]

pub IsStoppable-take_stop :
    (o : Option ℕ) (s : Sdk) → s.stopper ≡ o → IsStoppable s → IsStoppable (take_stop o s)
unfolding take_stop
IsStoppable-take_stop none s e g = g
IsStoppable-take_stop (some old) s e g = stopper_out s old g e
