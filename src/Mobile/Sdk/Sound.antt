-- ===== src/Mobile/Sdk/Sound.antt =====
-- The invariant of the SDK's state, and its Close: cmd/client/mobile/main.go.
use chat_libp2p.Common.{
  ℕ, ◌<◌, ◌≡◌, ◌∙◌, refl, sym, ap, subst, Bool, true, Option, none, some, List, [], ◌∷◌, Bytes,
  length, ltb, put, Bool-cases, inl, inr,
}
use chat_libp2p.Mobile.Sdk.{
  Event, Handles, Sdk, Act, ask_notifier, ask_session, end_notifier, end_session, ask_close,
  init_turn, offered, get, event_slots, new_sdk, halt, discard, get_notifier, open_decoded,
  place_stop, init_round, take_stop, close_sdk, offer, get_event, act, acts,
}
use chat_libp2p.Mobile.Sdk.Single.{
  IsSingle, IsStoppable, none_alive, IsSingle-none, IsSingle-renew, IsSingle-discard,
  IsSingle-end_handle, stopped_one, IsStoppable-init_round, IsStoppable-take_stop,
}

pub record IsSound (s : Sdk) : Type 0 where
  pub single_notifier : IsSingle s.notifiers
  pub single_session : IsSingle s.sessions
  pub stoppable : IsStoppable s

take_stop_handles :
    (o : Option ℕ) (s : Sdk)
    → ((take_stop o s).notifiers ≡ s.notifiers) × ((take_stop o s).sessions ≡ s.sessions)
unfolding take_stop
take_stop_handles none s = (refl, refl)
take_stop_handles (some old) s = (refl, refl)

place_stop_handles :
    (n : ℕ) (o : Option ℕ) (s : Sdk)
    → ((place_stop n o s).notifiers ≡ s.notifiers) × ((place_stop n o s).sessions ≡ s.sessions)
unfolding place_stop
place_stop_handles n none s = (refl, refl)
place_stop_handles n (some old) s = (refl, refl)

init_round_handles :
    (n : ℕ) (s : Sdk)
    → ((init_round n s).notifiers ≡ s.notifiers) × ((init_round n s).sessions ≡ s.sessions)
unfolding init_round
init_round_handles n s = elim (Bool-cases (s.placed n)) [
  | inl done ↦ rw done (refl, refl)
  | inr waits ↦ rw waits (place_stop_handles n s.stopper s)
]

IsSound-new : IsSound new_sdk
IsSound-new = record {
  single_notifier = IsSingle-none;
  single_session = IsSingle-none;
  stoppable = record { running = λ n p c. cc p };
}

IsSound-init_round : (n : ℕ) (s : Sdk) → IsSound s → IsSound (init_round n s)
IsSound-init_round n s g = record {
  single_notifier = subst IsSingle (sym (init_round_handles n s).0) g.single_notifier;
  single_session = subst IsSingle (sym (init_round_handles n s).1) g.single_session;
  stoppable = IsStoppable-init_round n s g.stoppable;
}

dropped : Sdk → Sdk
dropped s = record s { notifiers = discard s.notifiers; sessions = discard s.sessions }

IsSound-close_sdk : (s : Sdk) → IsSound s → IsSound (close_sdk s)
unfolding close_sdk dropped
IsSound-close_sdk s g = record {
  single_notifier =
      subst IsSingle (sym (take_stop_handles s.stopper (dropped s)).0)
        (IsSingle-discard s.notifiers g.single_notifier);
  single_session =
      subst IsSingle (sym (take_stop_handles s.stopper (dropped s)).1)
        (IsSingle-discard s.sessions g.single_session);
  stoppable =
      IsStoppable-take_stop s.stopper (dropped s) refl (record { running = g.stoppable.running });
}

IsSound-open_decoded : (o : Option Bytes) (s : Sdk) → IsSound s → IsSound (open_decoded o s).1
unfolding open_decoded
IsSound-open_decoded none s g = g
IsSound-open_decoded (some peer) s g = record {
  single_notifier = g.single_notifier;
  single_session = IsSingle-renew s.sessions g.single_session;
  stoppable = record { running = g.stoppable.running };
}

IsSound-events : (s : Sdk) (es : List Event) → IsSound s → IsSound (record s { events = es })
IsSound-events s es g = record {
  single_notifier = g.single_notifier;
  single_session = g.single_session;
  stoppable = record { running = g.stoppable.running };
}

IsSound-offer : (e : Event) (s : Sdk) → IsSound s → IsSound (offer e s)
unfolding offer
IsSound-offer e s g = elim (Bool-cases (ltb (length s.events) event_slots)) [
  | inl room ↦ rw room (IsSound-events s _ g)
  | inr full ↦ rw full g
]

IsSound-get_event : (i : ℕ) (prefer : Bool) (s : Sdk) → IsSound s → IsSound (get_event i prefer s).1
unfolding get_event
IsSound-get_event i prefer s g = elim (Bool-cases (ltb i s.notifiers.made)) [
  | inl known ↦ rw known (IsSound-events s _ g)
  | inr unknown ↦ rw unknown g
]

module _ (decode_peer : Bytes → Option Bytes) where
  IsSound-act : (a : Act) (s : Sdk) → IsSound s → IsSound (act decode_peer a s)
  unfolding act get_notifier
  IsSound-act ask_notifier s g = record {
    single_notifier = IsSingle-renew s.notifiers g.single_notifier;
    single_session = g.single_session;
    stoppable = record { running = g.stoppable.running };
  }
  IsSound-act (ask_session name) s g = IsSound-open_decoded (decode_peer name) s g
  IsSound-act (end_notifier i) s g = record {
    single_notifier = IsSingle-end_handle i s.notifiers g.single_notifier;
    single_session = g.single_session;
    stoppable = record { running = g.stoppable.running };
  }
  IsSound-act (end_session i) s g = record {
    single_notifier = g.single_notifier;
    single_session = IsSingle-end_handle i s.sessions g.single_session;
    stoppable = record { running = g.stoppable.running };
  }
  IsSound-act ask_close s g = IsSound-close_sdk s g
  IsSound-act (init_turn n) s g = IsSound-init_round n s g
  IsSound-act (offered e) s g = IsSound-offer e s g
  IsSound-act (get i prefer) s g = IsSound-get_event i prefer s g

  IsSound-acts : (as' : List Act) (s : Sdk) → IsSound s → IsSound (acts decode_peer as' s)
  unfolding acts
  IsSound-acts [] s g = g
  IsSound-acts (a ∷ as') s g = IsSound-acts as' (act decode_peer a s) (IsSound-act a s g)

  -- However the calls and the goroutines of the SDK alternate, at most one notifier is not halted, and at
  -- most one session, each the one that the SDK holds, and every call of Init whose client was started and
  -- whose cancel function was not called is the one whose cancel function waits in `stopper`.
  pub acts-IsSound : (as' : List Act) → IsSound (acts decode_peer as' new_sdk)
  acts-IsSound as' = IsSound-acts as' new_sdk IsSound-new

  discard_halts : (s : Handles) (i : ℕ) → IsSingle s → i < s.made → (discard s).halted i ≡ true
  unfolding discard
  discard_halts s i g lt = elim (Bool-cases (halt s.held s.halted i)) [
    | inl over ↦ over
    | inr alive ↦ absurd (none_alive s i g lt alive)
  ]

  take_stop_cancels :
      (o : Option ℕ) (s : Sdk) (n : ℕ)
      → s.stopper ≡ o
      → IsStoppable s
      → s.placed n ≡ true
      → (take_stop o s).cancelled n ≡ true
  unfolding take_stop
  take_stop_cancels none s n e g p = elim (Bool-cases (s.cancelled n)) [
    | inl over ↦ over
    | inr alive ↦ absurd (cc (g.running n p alive, e))
  ]
  take_stop_cancels (some old) s n e g p = elim (Bool-cases (put old true s.cancelled n)) [
    | inl over ↦ over
    | inr alive ↦ absurd (stopped_one s old n g e p alive)
  ]

  -- After Close of the SDK, every notifier and every session that it made is halted, and every client
  -- that Init started is cancelled.
  pub all_closed :
      (as' : List Act) (i j n : ℕ)
      → i < (acts decode_peer as' new_sdk).notifiers.made
      → j < (acts decode_peer as' new_sdk).sessions.made
      → (acts decode_peer as' new_sdk).placed n ≡ true
      → ((close_sdk (acts decode_peer as' new_sdk)).notifiers.halted i ≡ true)
        × ((close_sdk (acts decode_peer as' new_sdk)).sessions.halted j ≡ true)
        × ((close_sdk (acts decode_peer as' new_sdk)).cancelled n ≡ true)
  unfolding close_sdk dropped
  all_closed as' i j n a b p =
      let s = acts decode_peer as' new_sdk in
      let g = acts-IsSound as' in
      let same = take_stop_handles s.stopper (dropped s) in
      (
        ap (λ x. x.halted i) same.0 ∙ discard_halts s.notifiers i g.single_notifier a,
        ap (λ x. x.halted j) same.1 ∙ discard_halts s.sessions j g.single_session b,
        take_stop_cancels s.stopper (dropped s) n refl (record { running = g.stoppable.running }) p,
      )
