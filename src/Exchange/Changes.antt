-- ===== src/Exchange/Changes.antt =====
-- The four ways in which an event changes what waiting requests can see.
use chat_libp2p.Common.{
  ℕ, ◌≡◌, ◌∙◌, inl, inr, refl, subst, ap, Bool, Option, none, some, List, [], ◌∷◌, ◌++◌, ltb,
  length, Bytes, lookup, insert, nat_eq, Option-cases, Bool-cases,
}
use chat_libp2p.Exchange.{
  Protocol, State, Event, meta_frame, data_frame, begins, ends, receives, offer, enqueue, deliver,
  register, unregister, handle_action, handle_meta, handle_data, event, events,
}

module _ (p : Protocol) where
  -- Other than the queue: nothing, a response put into an empty channel, or a change of the map.
  pub data Change (s t : State p.Action) : Type 0 where
    queued :
        t.result ≡ s.result → t.channels ≡ s.channels → t.next_channel ≡ s.next_channel → Change s t
    offered :
        (txid ch : ℕ) (a : p.Action) (ok : Bool)
        → lookup txid s.result ≡ some ch
        → lookup ch s.channels ≡ none
        → p.action_id a ≡ txid
        → p.response_ok a ≡ some ok
        → t ≡ record s { channels = insert ch a s.channels }
        → Change s t
    registered : (txid : ℕ) → t ≡ (register s txid).0 → Change s t
    unregistered : (txid : ℕ) → t ≡ unregister s txid → Change s t

  unchanged : (s t : State p.Action) → t ≡ s → Change s t
  unchanged s t e =
      queued (ap (λ u. u.result) e) (ap (λ u. u.channels) e) (ap (λ u. u.next_channel) e)

  enqueue-Change :
      (s t : State p.Action) (peer : Bytes) (a : p.Action) → t ≡ enqueue s peer a → Change s t
  unfolding enqueue
  enqueue-Change s t peer a e = elim (Bool-cases (ltb (length s.receiver) 1000)) [
    | inl room ↦
        (let q : t ≡ record s { receiver = s.receiver ++ (peer, a) ∷ [] } =
            e ∙ rw (room, enqueue) in
          queued (ap (λ u. u.result) q) (ap (λ u. u.channels) q) (ap (λ u. u.next_channel) q))
    | inr full ↦ unchanged s t (e ∙ rw (full, enqueue))
  ]

  offer-Change :
      (s t : State p.Action) (txid ch : ℕ) (a : p.Action) (ok : Bool)
      → lookup txid s.result ≡ some ch
      → p.action_id a ≡ txid
      → p.response_ok a ≡ some ok
      → t ≡ offer s ch a
      → Change s t
  unfolding offer
  offer-Change s t txid ch a ok m i r e = elim (Option-cases (lookup ch s.channels)) [
    | inl empty ↦ offered txid ch a ok m empty i r (e ∙ rw (empty, offer))
    | inr (b, full) ↦ unchanged s t (e ∙ rw (full, offer))
  ]

  handle_action-Change :
      (s t : State p.Action) (peer : Bytes) (a : p.Action)
      → t ≡ handle_action p s peer a
      → Change s t
  unfolding handle_action deliver
  handle_action-Change s t peer a e = elim (Option-cases (p.response_ok a)) [
    | inl request ↦ enqueue-Change s t peer a (e ∙ rw (request, handle_action))
    | inr (ok, response) ↦ elim (Option-cases (lookup (p.action_id a) s.result)) [
      | inl gone ↦ unchanged s t (e ∙ rw (response, handle_action, gone, deliver))
      | inr (ch, m) ↦
          offer-Change s t (p.action_id a) ch a ok m refl response
            (e ∙ rw (response, handle_action, m, deliver))
    ]
  ]

  handle_meta-Change :
      (s t : State p.Action) (peer payload : Bytes) (o : Option (Option p.Action))
      → p.parse payload ≡ o
      → handle_meta p peer payload s ≡ some t
      → Change s t
  unfolding handle_meta
  handle_meta-Change s t peer payload none e h = absurd (cc (rw (e, handle_meta) at h))
  handle_meta-Change s t peer payload (some none) e h =
      unchanged s t (cc (rw (e, handle_meta) at h))
  handle_meta-Change s t peer payload (some (some a)) e h =
      handle_action-Change s t peer a (cc (rw (e, handle_meta) at h))

  handle_data-Change :
      (s t : State p.Action) (peer payload : Bytes) (o : Option (Option p.Action))
      → p.parse payload ≡ o
      → handle_data p peer payload s ≡ some t
      → Change s t
  unfolding handle_data
  handle_data-Change s t peer payload none e h = absurd (cc (rw (e, handle_data) at h))
  handle_data-Change s t peer payload (some none) e h =
      unchanged s t (cc (rw (e, handle_data) at h))
  handle_data-Change s t peer payload (some (some a)) e h =
      enqueue-Change s t peer a (cc (rw (e, handle_data) at h))

  take_request-Change :
      (s t : State p.Action) (q : List (Bytes × p.Action))
      → s.receiver ≡ q
      → event p receives s ≡ some t
      → Change s t
  unfolding event
  take_request-Change s t [] e h = unchanged s t (cc)
  take_request-Change s t (x ∷ q) e h =
      let step : t ≡ record s { receiver = q } = cc in
      queued (ap (λ u. u.result) step) (ap (λ u. u.channels) step) (ap (λ u. u.next_channel) step)

  pub event-Change : (e : Event p) (s t : State p.Action) → event p e s ≡ some t → Change s t
  unfolding event
  event-Change (meta_frame peer payload) s t h =
      handle_meta-Change s t peer payload (p.parse payload) refl h
  event-Change (data_frame peer payload) s t h =
      handle_data-Change s t peer payload (p.parse payload) refl h
  event-Change (begins txid) s t h = registered txid (cc)
  event-Change (ends txid) s t h = unregistered txid (cc)
  event-Change receives s t h = take_request-Change s t s.receiver refl h

  -- A property of states that every change keeps holds after any events.
  pub events_keep {κ} :
      (P : State p.Action → Type κ)
      → ((s t : State p.Action) → Change s t → P s → P t)
      → (es : List (Event p)) (s t : State p.Action) → events p es s ≡ some t
      → P s
      → P t
  unfolding events
  events_keep P keep [] s t h v = let e : s ≡ t = cc in subst P e v
  events_keep P keep (e ∷ es) s t h v = elim (Option-cases (event p e s)) [
    | inl q ↦ absurd (cc (rw (q, events) at h))
    | inr (u, q) ↦
        events_keep P keep es u t (cc (rw (q, events) at h)) (keep s u (event-Change e s u q) v)
  ]
