-- ===== src/Messages/Delivery.antt =====
-- internal/client/service/message.go: what a dialogue holds once a message was received or sent.
use chat_libp2p.Common.{ℕ, ◌≡◌, refl, subst, bytes_beq, true, false, some, [], Bytes, put_be}
use chat_libp2p.Database.{
  Bolt, BoltLaws, Result, ok, bind_ok, update, update_ok, same_entry, suffix, key_destroy_msg,
}
use chat_libp2p.Peers.{Codec, CodecLaws}
use chat_libp2p.Messages.{
  Message, type_text, dialogue, pending, received, put_in, schedule, exists_received,
}
use chat_libp2p.Messages.Entries.{add_entry, sync_text, send, get_message}
use chat_libp2p.Messages.Kept.{
  Held, Stored, put_in-Held, put_in_other-Held, schedule-Held, add_entry-Stored, Stored-get_message,
  Held-exists, moved, ok_first, ok_second,
}

abbrev pub text_message : Bytes → ℕ → ℕ → ℕ → Message
text_message content ttl created id = record {
  id = id;
  mtype = type_text;
  payload = content;
  reached = true;
  initiator = false;
  created_at = created;
  ttl = ttl;
}

abbrev pub sent_message : Bytes → Bytes → ℕ → ℕ → ℕ → Message
sent_message mtype payload ttl created id = record {
  id = id;
  mtype = mtype;
  payload = payload;
  reached = false;
  initiator = true;
  created_at = created;
  ttl = ttl;
}

module _ (d : Bolt) (w : BoltLaws d) (c : Codec Message) (l : CodecLaws c) where
  -- After the message, an entry of another bucket and the time to destroy it are put.
  pub put_next :
      (peer b k v : Bytes) (m : Message) (id : ℕ) (t u : d.Tx)
      → put_in d b k v t ≡ ok u
      → same_entry b k (dialogue peer) (put_be 8 id) ≡ false
      → Stored d w c l peer id m t
      → Stored d w c l peer id m u
  put_next peer b k v m id t u h ne (x, held, e) =
      (x, put_in_other-Held d w t u b k v (dialogue peer) (put_be 8 id) x h ne held, e)

  pub schedule_next :
      (peer : Bytes) (m : Message) (id n ttl now : ℕ) (t u : d.Tx)
      → schedule d peer n ttl now t ≡ ok u
      → Stored d w c l peer id m t
      → Stored d w c l peer id m u
  unfolding suffix
  schedule_next peer m id n ttl now t u h (x, held, e) =
      (x, schedule-Held d w peer n ttl now t u (dialogue peer) (put_be 8 id) x h refl held, e)

  -- The steps that syncText and Send share.
  pub delivered :
      (peer b k : Bytes) (make : ℕ → Message) (n id ttl now : ℕ) (t t1 t2 t3 u : d.Tx)
      → add_entry d c peer make t ≡ ok (n, t1)
      → put_in d b k [] t1 ≡ ok t2
      → schedule d peer n ttl now t2 ≡ ok t3
      → ◌≡◌ {A = Result (ℕ × d.Tx)} (ok (n, t3)) (ok (id, u))
      → ((j : Bytes) → same_entry b k (dialogue peer) j ≡ false)
      → bytes_beq key_destroy_msg b ≡ false
      → Stored d w c l peer id (make id) u × Held d w b k [] u
  delivered peer b k make n id ttl now t t1 t2 t3 u added put planned same ne apart =
      let first = add_entry-Stored d w c l peer make t t1 n added in
      let second = put_next peer b k [] (make n) n t1 t2 put (ne (put_be 8 n)) first in
      (
        moved d w c l peer make n id t3 u same
            (schedule_next peer (make n) n n ttl now t2 t3 planned second),
        subst (Held d w b k []) (ok_second d w n id t3 u same) (
            schedule-Held d w peer n ttl now t2 t3 b k [] planned apart
              (put_in-Held d w t1 t2 b k [] put)),
      )

  -- What a text that arrived leaves: the message, and the mark that its request was received.
  pub sync_text-Stored :
      (peer content : Bytes) (req_id ttl created now id : ℕ) (t u : d.Tx)
      → update d (sync_text d c peer req_id ttl content created now) t ≡ (ok id, u)
      → Stored d w c l peer id (text_message content ttl created id) u
        × Held d w (received peer) (put_be 8 req_id) [] u
  unfolding sync_text suffix
  sync_text-Stored peer content req_id ttl created now id t u h =
      let h0 = update_ok d _ t u id h in
      let ((n, t1), added, h1) =
        bind_ok (add_entry d c peer (text_message content ttl created) t) _ (id, u) h0 in
      let (t2, marked, h2) =
        bind_ok (put_in d (received peer) (put_be 8 req_id) [] t1) _ (id, u) h1 in
      let (t3, planned, h3) = bind_ok (schedule d peer n ttl now t2) _ (id, u) h2 in
      delivered peer (received peer) (put_be 8 req_id) (text_message content ttl created) n id ttl
        now t t1 t2 t3 u added marked planned h3 (λ j. refl) refl

  -- After a text that arrived is stored without an error, GetMessage under the number that the receiver is
  -- told returns it, marked as reached, and a question for the identifier of the request is answered
  -- with yes.
  pub get_message-sync_text :
      (peer content : Bytes) (req_id ttl created now id : ℕ) (t u : d.Tx)
      → update d (sync_text d c peer req_id ttl content created now) t ≡ (ok id, u)
      → (get_message d c peer id u ≡ ok (text_message content ttl created id))
        × (exists_received d peer req_id u ≡ true)
  get_message-sync_text peer content req_id ttl created now id t u h =
      let (stored, held) = sync_text-Stored peer content req_id ttl created now id t u h in
      (
        Stored-get_message d w c l peer id (text_message content ttl created id) u stored,
        Held-exists d w peer [] req_id u held,
      )

  -- After Send of a message without an error, GetMessage under the number that Send returns gives the
  -- message, marked as not reached, and that number is among those that AsyncSend goes through.
  pub get_message-send :
      (peer mtype payload : Bytes) (ttl created now id : ℕ) (t u : d.Tx)
      → update d (send d c peer mtype payload ttl created now) t ≡ (ok id, u)
      → (get_message d c peer id u ≡ ok (sent_message mtype payload ttl created id))
        × (d.get u (pending peer) (put_be 8 id) ≡ some [])
  unfolding send suffix
  get_message-send peer mtype payload ttl created now id t u h =
      let h0 = update_ok d _ t u id h in
      let make = sent_message mtype payload ttl created in
      let ((n, t1), added, h1) = bind_ok (add_entry d c peer make t) _ (id, u) h0 in
      let (t2, marked, h2) = bind_ok (put_in d (pending peer) (put_be 8 n) [] t1) _ (id, u) h1 in
      let (t3, planned, h3) = bind_ok (schedule d peer n ttl now t2) _ (id, u) h2 in
      let (stored, held) =
        delivered peer (pending peer) (put_be 8 n) make n id ttl now t t1 t2 t3 u added marked
          planned h3 (λ j. refl) refl in
      (
        Stored-get_message d w c l peer id (make id) u stored,
        subst (λ i. d.get u (pending peer) (put_be 8 i) ≡ some []) (ok_first d w n id t3 u h3)
            held.entry,
      )
