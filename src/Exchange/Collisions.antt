-- ===== src/Exchange/Collisions.antt =====
-- Which response a request gets when identifiers meet.
use chat_libp2p.Common.{
  ℕ, ◌<◌, ◌≡◌, ◌≢◌, ◌∙◌, inl, inr, refl, sym, ap, arith, Bool, true, false, none, some, List, ◌∷◌,
  ◌++◌, All, ◌==◌, ==_iff, Bytes, lookup, insert, lookup-insert, lookup-remove, nat_eq,
  Option-cases, Bool-cases,
}
use chat_libp2p.Exchange.{
  Protocol, State, Event, answered, err, ctx_error, meta_frame, begins, register, unregister, offer,
  deliver, handle_action, handle_meta, event, events, await, request,
}
use chat_libp2p.Exchange.Changes.{Change, queued, offered, registered, unregistered, events_keep}
use chat_libp2p.Exchange.Waiting.{IsState}
use chat_libp2p.Exchange.Pending.{IsApart, IsPending, IsPending-after}

insert_self : (k v : ℕ) (m : List (ℕ × ℕ)) → lookup k (insert k v m) ≡ some v
insert_self k v m = lookup-insert k k v m ∙ rw ((==_iff k k).1 refl)

module _ (p : Protocol) where
  -- The buffer of `ch` is full, with `a`.
  abbrev Holds : ℕ → p.Action → State p.Action → Type 0
  Holds ch a s = lookup ch s.channels ≡ some a

  -- No identifier leads to `ch`, and its buffer is empty.
  record IsOrphan (ch : ℕ) (s : State p.Action) : Type 0 where
    made : ch < s.next_channel
    unmapped : (txid : ℕ) → lookup txid s.result ≢ some ch
    empty : lookup ch s.channels ≡ none

  Change-Holds :
      (c : ℕ) (b : p.Action) (s t : State p.Action) → Change p s t → Holds c b s → Holds c b t
  unfolding register unregister
  Change-Holds c b s t (queued r e n) h = ap (lookup c) e ∙ h
  Change-Holds c b s t (offered txid ch a ok m e i r q) h =
      rw q (ground (arith, lookup-insert ch c a s.channels, ==_iff ch c))
  Change-Holds c b s t (registered txid q) h = rw q h
  Change-Holds c b s t (unregistered txid q) h = rw q h

  Change-IsOrphan : (c : ℕ) (s t : State p.Action) → Change p s t → IsOrphan c s → IsOrphan c t
  unfolding register unregister
  Change-IsOrphan c s t (queued r e n) v = record {
    made = rw n v.made;
    unmapped = λ x h. v.unmapped x (sym (ap (lookup x) r) ∙ h);
    empty = ap (lookup c) e ∙ v.empty;
  }
  Change-IsOrphan c s t (offered txid ch a ok m e i r q) v = rw q (record {
    made = v.made;
    unmapped = v.unmapped;
    empty = elim (Bool-cases (ch == c)) [
      | inl same ↦ absurd (v.unmapped txid (m ∙ ap some ((==_iff ch c).0 same)))
      | inr other ↦ lookup-insert ch c a s.channels ∙ rw other v.empty
    ];
  })
  Change-IsOrphan c s t (registered txid q) v = rw q (record {
    made = let n = v.made in omega arith;
    unmapped = λ x h.
        let n = v.made in
        ground (arith, lookup-insert txid x s.next_channel s.result, v.unmapped x);
    empty = v.empty;
  })
  Change-IsOrphan c s t (unregistered txid q) v = rw q (record {
    made = v.made;
    unmapped = λ x h. ground (arith, lookup-remove txid x s.result, v.unmapped x);
    empty = v.empty;
  })

  -- Request when it was sent and nothing panicked meanwhile.
  request_runs :
      (late : Bool) (es : List (Event p)) (s u : State p.Action) (txid : ℕ)
      → events p es (register s txid).0 ≡ some u
      → request p true late es s txid ≡ some (unregister u txid, await p u s.next_channel late)
  unfolding request
  request_runs late es s u txid ran = rw (ran, request)

  fresh_empty : (s : State p.Action) → IsState p s → lookup s.next_channel s.channels ≡ none
  fresh_empty s v = elim (Option-cases (lookup s.next_channel s.channels)) [
    | inl empty ↦ empty
    | inr (a, full) ↦ absurd (let n = v.filled s.next_channel a full in omega arith)
  ]

  registered-IsPending :
      (s : State p.Action) (txid : ℕ)
      → IsState p s
      → IsPending p txid s.next_channel (register s txid).0
  unfolding register
  registered-IsPending s txid v = record {
    made = omega arith;
    found = insert_self txid s.next_channel s.result;
    only = λ t h.
        ground (arith, lookup-insert txid t s.next_channel s.result, v.mapped t s.next_channel);
    empty = fresh_empty s v;
  }

  -- A response for a request that waits fills its channel.
  first_answer :
      (s : State p.Action) (txid ch : ℕ) (peer payload : Bytes) (a : p.Action) (ok : Bool)
      → IsPending p txid ch s
      → p.parse payload ≡ some (some a)
      → p.response_ok a ≡ some ok
      → p.action_id a ≡ txid
      → (t : State p.Action) × (event p (meta_frame peer payload) s ≡ some t) × Holds ch a t
  unfolding event handle_meta handle_action deliver offer
  first_answer s txid ch peer payload a ok v parsed response id = (
    record s { channels = insert ch a s.channels },
    rw (parsed, handle_meta, response, handle_action, id, v.found, deliver, v.empty, offer) refl,
    lookup-insert ch ch a s.channels ∙ rw ((==_iff ch ch).1 refl),
  )

  await-Holds :
      (u : State p.Action) (ch : ℕ) (a : p.Action) → Holds ch a u → await p u ch false ≡ answered a
  unfolding await
  await-Holds u ch a h = rw (h, await)

  await_empty :
      (late : Bool) (u : State p.Action) (ch : ℕ)
      → lookup ch u.channels ≡ none
      → await p u ch late ≡ err ctx_error
  unfolding await
  await_empty late u ch h = rw (h, await)

  events_first :
      (e : Event p) (es : List (Event p)) (s t u : State p.Action)
      → event p e s ≡ some t
      → events p (e ∷ es) s ≡ some u
      → events p es t ≡ some u
  unfolding events
  events_first e es s t u first h = rw (first, events) at h

  -- The first response with the request's identifier is what Request returns, whichever peer it comes from,
  -- whatever arrives before it, if no other request with the identifier begins or ends before it, and
  -- whatever arrives after it, if nothing panics and the context has not ended.
  pub request_first_answer :
      (s u : State p.Action) (txid : ℕ) (peer payload : Bytes) (a : p.Action) (ok : Bool)
      (before es : List (Event p))
      → IsState p s
      → All (IsApart p txid) before
      → p.parse payload ≡ some (some a)
      → p.response_ok a ≡ some ok
      → p.action_id a ≡ txid
      → events p (before ++ meta_frame peer payload ∷ es) (register s txid).0 ≡ some u
      → request p true false (before ++ meta_frame peer payload ∷ es) s txid
        ≡ some (unregister u txid, answered a)
  request_first_answer s u txid peer payload a ok before es v apart parsed response id ran =
      let ch = s.next_channel in
      let (w, earlier, rest, pending) =
        IsPending-after p txid ch before (meta_frame peer payload ∷ es) _ u apart ran
          (registered-IsPending s txid v) in
      let (t, first, full) = first_answer w txid ch peer payload a ok pending parsed response id in
      let kept =
        events_keep p (Holds ch a) (Change-Holds ch a) es t u
          (events_first (meta_frame peer payload) es w t u first rest) full in
      request_runs false (before ++ meta_frame peer payload ∷ es) s u txid ran
      ∙ rw (await-Holds u ch a kept)

  overtaken :
      (s : State p.Action) (txid ch : ℕ) → IsPending p txid ch s → IsOrphan ch (register s txid).0
  unfolding register
  overtaken s txid ch v = record {
    made = let n = v.made in omega arith;
    unmapped = λ x h.
        let n = v.made in ground (arith, lookup-insert txid x s.next_channel s.result, v.only x);
    empty = v.empty;
  }

  -- A request gets no response, whatever arrives, if another one with its identifier begins before a
  -- response with the identifier comes, and before any end of a request with it: it waits until its
  -- context ends.
  pub request_overtaken :
      (late : Bool) (s u : State p.Action) (txid : ℕ) (before es : List (Event p))
      → IsState p s
      → All (IsApart p txid) before
      → events p (before ++ begins txid ∷ es) (register s txid).0 ≡ some u
      → request p true late (before ++ begins txid ∷ es) s txid
        ≡ some (unregister u txid, err ctx_error)
  request_overtaken late s u txid before es v apart ran =
      let ch = s.next_channel in
      let (w, earlier, rest, pending) =
        IsPending-after p txid ch before (begins txid ∷ es) _ u apart ran
          (registered-IsPending s txid v) in
      let orphan =
        events_keep p (IsOrphan ch) (Change-IsOrphan ch) es _ u
          (events_first (begins txid) es w (register w txid).0 u (unfold event in refl) rest)
          (overtaken w txid ch pending) in
      request_runs late (before ++ begins txid ∷ es) s u txid ran
      ∙ rw (await_empty late u ch orphan.empty)
