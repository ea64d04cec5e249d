-- ===== src/Exchange/Waiting.antt =====
-- What a waiting request gets, whatever arrives meanwhile.
use chat_libp2p.Common.{
  ℕ, ◌<◌, ◌≡◌, ◌∙◌, inl, inr, refl, sym, ap, arith, Bool, true, false, none, some, List, ◌==◌,
  ==_iff, if◌then◌else◌, lookup, insert, lookup-insert, lookup-remove, nat_eq, Option-cases,
  some_pair, Bool-cases,
}
use chat_libp2p.Exchange.{
  Protocol, State, Event, Reply, answered, err, send_error, ctx_error, register, unregister, events,
  await, request,
}
use chat_libp2p.Exchange.Changes.{Change, queued, offered, registered, unregistered, events_keep}

module _ (p : Protocol) where
  -- Channels are made in order, and none is filled before it is made.
  pub record IsState (s : State p.Action) : Type 0 where
    pub mapped : (txid ch : ℕ) → lookup txid s.result ≡ some ch → ch < s.next_channel
    pub filled : (ch : ℕ) (a : p.Action) → lookup ch s.channels ≡ some a → ch < s.next_channel

  -- The channel `ch` can be reached under `txid` only, and holds nothing but a response to it.
  pub record Owns (txid ch : ℕ) (s : State p.Action) : Type 0 where
    pub made : ch < s.next_channel
    pub only : (t : ℕ) → lookup t s.result ≡ some ch → t ≡ txid
    pub holds :
        (a : p.Action)
        → lookup ch s.channels ≡ some a
        → (p.action_id a ≡ txid) × ((ok : Bool) × (p.response_ok a ≡ some ok))

  Change-IsState : (s t : State p.Action) → Change p s t → IsState s → IsState t
  unfolding register unregister
  Change-IsState s t (queued r c n) v = record {
    mapped = λ x ch h. rw n (v.mapped x ch (sym (ap (lookup x) r) ∙ h));
    filled = λ ch b h. rw n (v.filled ch b (sym (ap (lookup ch) c) ∙ h));
  }
  Change-IsState s t (offered txid ch a ok m e i r q) v = rw q (record {
    mapped = v.mapped;
    filled =
        λ c b h. ground (arith, lookup-insert ch c a s.channels, v.mapped txid ch m, v.filled c b);
  })
  Change-IsState s t (registered txid q) v = rw q (record {
    mapped = λ x c h. ground (arith, lookup-insert txid x s.next_channel s.result, v.mapped x c);
    filled = λ c b h. ground (arith, v.filled c b);
  })
  Change-IsState s t (unregistered txid q) v = rw q (record {
    mapped = λ x c h. ground (arith, lookup-remove txid x s.result, v.mapped x c);
    filled = v.filled;
  })

  offered_holds :
      (x c : ℕ) (s : State p.Action) (txid ch : ℕ) (a : p.Action) (ok : Bool)
      → lookup txid s.result ≡ some ch
      → p.action_id a ≡ txid
      → p.response_ok a ≡ some ok
      → Owns x c s
      → (b : p.Action) → lookup c (insert ch a s.channels) ≡ some b
      → (p.action_id b ≡ x) × ((ok : Bool) × (p.response_ok b ≡ some ok))
  offered_holds x c s txid ch a ok m i r v b h = elim (Bool-cases (ch == c)) [
    | inl same ↦
        (let e : a ≡ b = cc (lookup-insert ch c a s.channels, same) in
          let own : txid ≡ x = v.only txid (m ∙ ap some ((==_iff ch c).0 same)) in
          (sym (ap p.action_id e) ∙ i ∙ own, (ok, sym (ap p.response_ok e) ∙ r)))
    | inr other ↦ v.holds b (sym (rw other at (lookup-insert ch c a s.channels)) ∙ h)
  ]

  Change-Owns :
      (txid ch : ℕ) (s t : State p.Action) → Change p s t → Owns txid ch s → Owns txid ch t
  unfolding register unregister
  Change-Owns x c s t (queued r e n) v = record {
    made = rw n v.made;
    only = λ y h. v.only y (sym (ap (lookup y) r) ∙ h);
    holds = λ b h. v.holds b (sym (ap (lookup c) e) ∙ h);
  }
  Change-Owns x c s t (offered txid ch a ok m e i r q) v = rw q (record {
    made = v.made;
    only = v.only;
    holds = λ b h. offered_holds x c s txid ch a ok m i r v b h;
  })
  Change-Owns x c s t (registered txid q) v = rw q (record {
    made = let n = v.made in omega arith;
    only = λ y h.
        let n = v.made in ground (arith, lookup-insert txid y s.next_channel s.result, v.only y);
    holds = v.holds;
  })
  Change-Owns x c s t (unregistered txid q) v = rw q (record {
    made = v.made;
    only = λ y h. ground (arith, lookup-remove txid y s.result, v.only y);
    holds = v.holds;
  })

  register-Owns :
      (s : State p.Action) (txid : ℕ) → IsState s → Owns txid s.next_channel (register s txid).0
  unfolding register
  register-Owns s txid v = record {
    made = omega arith;
    only = λ y h. ground (
      arith,
      lookup-insert txid y s.next_channel s.result,
      v.mapped y s.next_channel,
      ==_iff txid y,
    );
    holds = λ a h. absurd (let n = v.filled s.next_channel a h in omega arith);
  }

  pub register-IsState : (s : State p.Action) (txid : ℕ) → IsState s → IsState (register s txid).0
  register-IsState s txid v = Change-IsState s _ (registered txid refl) v

  -- A request that was sent and returned: the state and the channel that it read at the end.
  request_sent :
      (late : Bool) (es : List (Event p)) (s t : State p.Action) (txid : ℕ) (r : Reply p.Action)
      → request p true late es s txid ≡ some (t, r)
      → (u : State p.Action) × (events p es (register s txid).0 ≡ some u)
        × (t ≡ unregister u txid)
        × (r ≡ await p u s.next_channel late)
  unfolding request
  request_sent late es s t txid r h = elim (Option-cases (events p es (register s txid).0)) [
    | inl q ↦ absurd (cc (rw (q, request) at h))
    | inr (u, q) ↦
        (let e =
            some_pair (unregister u txid) t (await p u s.next_channel late) r
              (rw (q, request) at h) in
          (u, q, sym e.0, sym e.1))
  ]

  await_answered :
      (u : State p.Action) (ch : ℕ) (late : Bool) (a : p.Action)
      → await p u ch late ≡ answered a
      → lookup ch u.channels ≡ some a
  unfolding await
  await_answered u ch late a h = elim (Option-cases (lookup ch u.channels)) [
    | inl empty ↦ absurd (cc (rw (empty, await) at h))
    | inr (b, full) ↦ in_time late b full (rw (full, await) at h)
  ]
    where
      in_time :
          (l : Bool) (b : p.Action)
          → lookup ch u.channels ≡ some b
          → (if l then err ctx_error else answered b) ≡ answered a
          → lookup ch u.channels ≡ some a
      in_time true b full k = cc
      in_time false b full k = cc

  -- A response that Request returns has the identifier of the request, whatever frames arrive and
  -- whatever other requests begin and end while it waits, and whether or not the request was sent.
  pub request-answer :
      (sent late : Bool) (es : List (Event p)) (s t : State p.Action) (txid : ℕ) (a : p.Action)
      → IsState s
      → request p sent late es s txid ≡ some (t, answered a)
      → (p.action_id a ≡ txid) × ((ok : Bool) × (p.response_ok a ≡ some ok))
  request-answer true late es s t txid a v h =
      let (u, ran, _, got) = request_sent late es s t txid (answered a) h in
      let own =
        events_keep p (Owns txid s.next_channel) (Change-Owns txid s.next_channel) es _ u ran
          (register-Owns s txid v) in
      own.holds a (await_answered u s.next_channel late a (sym got))
  request-answer false late es s t txid a v h = absurd (unfold request in cc h)

  -- When Request has returned, however it ends, nobody waits under its identifier any more.
  pub request_unregisters :
      (sent late : Bool) (es : List (Event p)) (s t : State p.Action) (txid : ℕ)
      (r : Reply p.Action)
      → request p sent late es s txid ≡ some (t, r)
      → lookup txid t.result ≡ none
  unfolding unregister
  request_unregisters true late es s t txid r h =
      let (u, _, e, _) = request_sent late es s t txid r h in
      rw e (lookup-remove txid txid u.result ∙ rw ((==_iff txid txid).1 refl))
  request_unregisters false late es s t txid r h =
      let e =
        some_pair (unregister (register s txid).0 txid) t (err send_error) r
          (unfold request in h) in
      rw (← e.0)
        (lookup-remove txid txid (register s txid).0.result ∙ rw ((==_iff txid txid).1 refl))
