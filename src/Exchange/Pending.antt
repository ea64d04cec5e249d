-- ===== src/Exchange/Pending.antt =====
-- A request that waits while other requests and their responses come and go.
use chat_libp2p.Common.{
  ℕ, ◌<◌, ◌≡◌, ◌≢◌, ◌∙◌, inl, inr, refl, ap, subst, arith, Bool, Option, none, some, List, [], ◌∷◌,
  ◌++◌, ◌==◌, ==_iff, Bytes, lookup, lookup-insert, lookup-remove, nat_eq, Option-cases, Bool-cases,
  ltb, length, All,
}
use chat_libp2p.Exchange.{
  Protocol, State, Event, meta_frame, data_frame, begins, ends, receives, register, unregister,
  offer, enqueue, deliver, handle_action, handle_meta, handle_data, event, events,
}

module _ (p : Protocol) (txid : ℕ) where
  -- The payload is no response with the identifier.
  abbrev pub IsOther : Bytes → Type 0
  IsOther payload =
      (a : p.Action) (ok : Bool)
      → p.parse payload ≡ some (some a)
      → p.response_ok a ≡ some ok
      → p.action_id a ≢ txid

  -- No response with the identifier, and no begin or end of a request with it.
  abbrev pub IsApart : Event p → Type 0
  IsApart (meta_frame peer payload) = IsOther payload
  IsApart (begins x) = x ≢ txid
  IsApart (ends x) = x ≢ txid
  IsApart _ = Unit {0}

  -- The identifier leads to the channel, no other one does, and its buffer is empty.
  pub record IsPending (ch : ℕ) (s : State p.Action) : Type 0 where
    pub made : ch < s.next_channel
    pub found : lookup txid s.result ≡ some ch
    pub only : (t : ℕ) → lookup t s.result ≡ some ch → t ≡ txid
    pub empty : lookup ch s.channels ≡ none

  IsPending-queue :
      (ch : ℕ) (s : State p.Action) (peer : Bytes) (a : p.Action)
      → IsPending ch s
      → IsPending ch (enqueue s peer a)
  unfolding enqueue
  IsPending-queue ch s peer a v = elim (Bool-cases (ltb (length s.receiver) 1000)) [
    | inl room ↦
        rw (room, enqueue)
          (record { made = v.made; found = v.found; only = v.only; empty = v.empty })
    | inr full ↦ rw (full, enqueue) v
  ]

  IsPending-offer :
      (ch c : ℕ) (s : State p.Action) (a : p.Action)
      → c ≢ ch
      → IsPending ch s
      → IsPending ch (offer s c a)
  unfolding offer
  IsPending-offer ch c s a ne v = elim (Option-cases (lookup c s.channels)) [
    | inl free ↦
        rw (free, offer)
          (record {
            made = v.made;
            found = v.found;
            only = v.only;
            empty = elim (Bool-cases (c == ch)) [
              | inl same ↦ absurd (ne ((==_iff c ch).0 same))
              | inr apart ↦ lookup-insert c ch a s.channels ∙ rw apart v.empty
            ];
          })
    | inr (b, full) ↦ rw (full, offer) v
  ]

  IsPending-deliver :
      (ch x : ℕ) (s : State p.Action) (a : p.Action)
      → x ≢ txid
      → IsPending ch s
      → IsPending ch (deliver s x a)
  unfolding deliver
  IsPending-deliver ch x s a ne v = elim (Option-cases (lookup x s.result)) [
    | inl gone ↦ rw (gone, deliver) v
    | inr (c, m) ↦ rw (m, deliver) (IsPending-offer ch c s a (λ e. ne (v.only x (m ∙ ap some e))) v)
  ]

  IsPending-action :
      (ch : ℕ) (s : State p.Action) (peer : Bytes) (a : p.Action)
      → ((ok : Bool) → p.response_ok a ≡ some ok → p.action_id a ≢ txid)
      → IsPending ch s
      → IsPending ch (handle_action p s peer a)
  unfolding handle_action
  IsPending-action ch s peer a other v = elim (Option-cases (p.response_ok a)) [
    | inl request ↦ rw (request, handle_action) (IsPending-queue ch s peer a v)
    | inr (ok, response) ↦
        rw (response, handle_action)
          (IsPending-deliver ch (p.action_id a) s a (other ok response) v)
  ]

  IsPending-meta :
      (ch : ℕ) (s t : State p.Action) (peer payload : Bytes) (o : Option (Option p.Action))
      → p.parse payload ≡ o
      → IsOther payload
      → handle_meta p peer payload s ≡ some t
      → IsPending ch s
      → IsPending ch t
  unfolding handle_meta
  IsPending-meta ch s t peer payload none e other h v = absurd (cc (rw (e, handle_meta) at h))
  IsPending-meta ch s t peer payload (some none) e other h v =
      let same : s ≡ t = cc (rw (e, handle_meta) at h) in subst (IsPending ch) same v
  IsPending-meta ch s t peer payload (some (some a)) e other h v =
      let same : handle_action p s peer a ≡ t = cc (rw (e, handle_meta) at h) in
      subst (IsPending ch) same (IsPending-action ch s peer a (λ ok r. other a ok e r) v)

  IsPending-data :
      (ch : ℕ) (s t : State p.Action) (peer payload : Bytes) (o : Option (Option p.Action))
      → p.parse payload ≡ o
      → handle_data p peer payload s ≡ some t
      → IsPending ch s
      → IsPending ch t
  unfolding handle_data
  IsPending-data ch s t peer payload none e h v = absurd (cc (rw (e, handle_data) at h))
  IsPending-data ch s t peer payload (some none) e h v =
      let same : s ≡ t = cc (rw (e, handle_data) at h) in subst (IsPending ch) same v
  IsPending-data ch s t peer payload (some (some a)) e h v =
      let same : enqueue s peer a ≡ t = cc (rw (e, handle_data) at h) in
      subst (IsPending ch) same (IsPending-queue ch s peer a v)

  IsPending-register :
      (ch x : ℕ) (s : State p.Action) → x ≢ txid → IsPending ch s → IsPending ch (register s x).0
  unfolding register
  IsPending-register ch x s ne v = record {
    made = let n = v.made in omega arith;
    found = elim (Bool-cases (x == txid)) [
      | inl same ↦ absurd (ne ((==_iff x txid).0 same))
      | inr apart ↦ lookup-insert x txid s.next_channel s.result ∙ rw apart v.found
    ];
    only = λ t h.
        let n = v.made in ground (arith, lookup-insert x t s.next_channel s.result, v.only t);
    empty = v.empty;
  }

  IsPending-unregister :
      (ch x : ℕ) (s : State p.Action) → x ≢ txid → IsPending ch s → IsPending ch (unregister s x)
  unfolding unregister
  IsPending-unregister ch x s ne v = record {
    made = v.made;
    found = elim (Bool-cases (x == txid)) [
      | inl same ↦ absurd (ne ((==_iff x txid).0 same))
      | inr apart ↦ lookup-remove x txid s.result ∙ rw apart v.found
    ];
    only = λ t h. ground (arith, lookup-remove x t s.result, v.only t);
    empty = v.empty;
  }

  IsPending-taken :
      (ch : ℕ) (s t : State p.Action) (q : List (Bytes × p.Action))
      → s.receiver ≡ q
      → event p receives s ≡ some t
      → IsPending ch s
      → IsPending ch t
  unfolding event
  IsPending-taken ch s t [] e h v = let same : s ≡ t = cc in subst (IsPending ch) same v
  IsPending-taken ch s t (x ∷ q) e h v =
      let same : record s { receiver = q } ≡ t = cc in
      subst (IsPending ch) same
        (record { made = v.made; found = v.found; only = v.only; empty = v.empty })

  IsPending-event :
      (ch : ℕ) (e : Event p) (s t : State p.Action)
      → IsApart e
      → event p e s ≡ some t
      → IsPending ch s
      → IsPending ch t
  unfolding event
  IsPending-event ch (meta_frame peer payload) s t other h v =
      IsPending-meta ch s t peer payload (p.parse payload) refl other h v
  IsPending-event ch (data_frame peer payload) s t other h v =
      IsPending-data ch s t peer payload (p.parse payload) refl h v
  IsPending-event ch (begins x) s t ne h v =
      let same : (register s x).0 ≡ t = cc in
      subst (IsPending ch) same (IsPending-register ch x s ne v)
  IsPending-event ch (ends x) s t ne h v =
      let same : unregister s x ≡ t = cc in
      subst (IsPending ch) same (IsPending-unregister ch x s ne v)
  IsPending-event ch receives s t other h v = IsPending-taken ch s t s.receiver refl h v

  -- It still waits after events that do not touch its identifier, and the other events go on from there.
  pub IsPending-after :
      (ch : ℕ) (before es : List (Event p)) (s u : State p.Action)
      → All IsApart before
      → events p (before ++ es) s ≡ some u
      → IsPending ch s
      → (t : State p.Action) × (events p before s ≡ some t)
        × (events p es t ≡ some u)
        × IsPending ch t
  unfolding events
  IsPending-after ch [] es s u h ran v = (s, refl, ran, v)
  IsPending-after ch (e ∷ before) es s u (apart, h) ran v = elim (Option-cases (event p e s)) [
    | inl q ↦ absurd (cc (rw (q, events) at ran))
    | inr (w, q) ↦
        (let (t, first, rest, v') =
            IsPending-after ch before es w u h (cc (rw (q, events) at ran))
              (IsPending-event ch e s w apart q v) in
          (t, rw (q, events) first, rest, v'))
  ]
