-- ===== src/Mobile/Pump/Handed.antt =====
-- A text on its way from a request to the front end: internal/client/service/message.go and
-- cmd/client/mobile/main.go.
use chat_libp2p.Common.{
  ℕ, ◌<◌, ◌≡◌, ◌∙◌, refl, sym, ap, subst, arith, Bool, false, some, [], ◌∷◌, Bytes, ◌++◌, length,
  lt→ltb, ltb, Bool-cases, inl, inr,
}
use chat_libp2p.Database.{Bolt, BoltLaws, Result, ok, update}
use chat_libp2p.Peers.{Peer, Codec, CodecLaws}
use chat_libp2p.Text as Txt
use chat_libp2p.Messages.{Message, type_text}
use chat_libp2p.Messages.Entries.{get_message, sync_text}
use chat_libp2p.Messages.Delivery.{text_message}
use chat_libp2p.Messages.Receive.{Saving, save_sender, receive_text}
use chat_libp2p.Chat.TextDelivery.{reply-Stores}
use chat_libp2p.Mobile.{View, view, format_uint}
use chat_libp2p.Mobile.Sdk.{
  Event, received, Sdk, received_event, take_event, get_event, offer, event_slots,
}
use chat_libp2p.Mobile.Sdk.Feed.{offer_room}
use chat_libp2p.Mobile.Pump.{pump_found, pump_received}

offered_alone : (e : Event) (s : Sdk) → s.events ≡ [] → (offer e s).events ≡ e ∷ []
offered_alone e s none_waits =
    offer_room e s (subst (λ es. length es < event_slots) (sym none_waits) (omega arith))
    ∙ ap (λ es. es ++ e ∷ []) none_waits

offer_notifiers : (e : Event) (s : Sdk) → (offer e s).notifiers ≡ s.notifiers
unfolding offer
offer_notifiers e s = elim (Bool-cases (ltb (length s.events) event_slots)) [
  | inl room ↦ rw room refl
  | inr full ↦ rw full refl
]

taken_alone :
    (i : ℕ) (prefer : Bool) (e : Event) (s : Sdk)
    → i < s.notifiers.made
    → s.notifiers.halted i ≡ false
    → s.events ≡ e ∷ []
    → (get_event i prefer s).0 ≡ some (ok e)
unfolding get_event take_event
taken_alone i prefer e s known alive waits =
    rw (lt→ltb i s.notifiers.made known, alive, waits, take_event) refl

-- The event's object shows the text, and the sender by the text of its identifier.
abbrev pub IsShown : Bytes → Bytes → ℕ → View → Type 0
IsShown peer_text content n v =
    (v.mtype ≡ type_text) × (v.payload ≡ content) × (v.peer_id ≡ peer_text) × (v.id ≡ format_uint n)

module _ (d : Bolt) (w : BoltLaws d) (c : Codec Message) (l : CodecLaws c) (cp : Codec Peer)
    (local_peer local_evm : Bytes) (name : Bytes → Bytes) where
  found_alone :
      (peer_text : Bytes) (i : ℕ) (prefer : Bool) (m : Message) (r : Result Message) (s : Sdk)
      → r ≡ ok m
      → s.events ≡ []
      → i < s.notifiers.made
      → s.notifiers.halted i ≡ false
      → (get_event i prefer (pump_found peer_text r s)).0 ≡ some (ok (received_event peer_text m))
  unfolding pump_found
  found_alone peer_text i prefer m r s found none_waits known alive =
      subst
        (λ x.
          (get_event i prefer (pump_found peer_text x s)).0
          ≡ some (ok (received_event peer_text m)))
        (sym found)
        (taken_alone i prefer (received_event peer_text m) (offer (received_event peer_text m) s)
          (subst (λ h. i < h.made) (sym (offer_notifiers (received_event peer_text m) s)) known)
          (subst (λ h. h.halted i ≡ false) (sym (offer_notifiers (received_event peer_text m) s))
            alive)
          (offered_alone (received_event peer_text m) s none_waits))

  -- A text reaches the front end: when the handling of its request tells a number, and no event waits, the
  -- goroutine around ReceiveMessage makes an event of which a notifier that is not halted hands out next
  -- an object with the text, the sender's identifier as String prints it, and the number.
  pub text_handed :
      (peer content : Bytes) (id ttl created now n i : ℕ) (saving : Saving) (prefer : Bool)
      (t : d.Tx) (s : Sdk)
      → (receive_text d c cp local_peer local_evm name peer
          (Txt.req_sync_text id ttl content)
          saving
          created
          now
          t).received
        ≡ some n
      → s.events ≡ []
      → i < s.notifiers.made
      → s.notifiers.halted i ≡ false
      → (v : View) × ((get_event i prefer (
            pump_received d c name peer n
              (receive_text d c cp local_peer local_evm name peer
                (Txt.req_sync_text id ttl content)
                saving
                created
                now
                t).tx
              s)).0
          ≡ some (ok (received v)))
        × IsShown (name peer) content n v
  unfolding receive_text pump_received received_event view
  text_handed peer content id ttl created now n i saving prefer t s told none_waits known alive =
      let u = save_sender d c cp local_peer local_evm name peer saving t in
      let kept =
        reply-Stores d w c l cp local_peer local_evm name peer content id ttl created now n u
          (update d (sync_text d c peer id ttl content created now) u) refl told in
      let m = text_message content ttl created n in
      (
        record (view (name peer) m) { ttl = 0 },
        found_alone (name peer) i prefer m (get_message d c peer n _) s kept.1 none_waits known
            alive,
        (refl, refl, refl, refl),
      )
