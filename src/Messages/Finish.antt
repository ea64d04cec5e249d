-- ===== src/Messages/Finish.antt =====
-- internal/client/service/message.go: what the end of a request leaves, and what a flush leaves.
use chat_libp2p.Common.{
  ℕ, ◌≡◌, ◌∙◌, refl, sym, ap, subst, true, false, none, some, [], ◌∷◌, ◌++◌, Bytes, put_be,
  bytes_beq, bytes_beq_iff, Bool-cases, inl, inr,
}
use chat_libp2p.Database.{
  Bolt, BoltLaws, Result, ok, err, ◌>>=◌, or_fault, or_fault_ok, bind_ok, update, update_ok,
  same_entry, suffix, key_dialogue, bolt_error, encode_error, not_found, get_or_new_bucket,
  get_bucket, ends_open, truncate_bucket, no_suffix, underscore, commit,
}
use chat_libp2p.Database.Buckets.{get_or_new_open, get_or_new_there, open_suffix}
use chat_libp2p.Peers.{Codec, CodecLaws}
use chat_libp2p.Messages.{Message, dialogue, pending, flush_messages, flush_in}
use chat_libp2p.Messages.Entries.{
  get_message, mark_reached, finish_send, finish_send_in, add_entry, send, decoded,
}
use chat_libp2p.Messages.Kept.{
  Held, Stored, Stored-get_message, get_or_new-Held, delete_other-Held, put-Held,
}

module _ (d : Bolt) (w : BoltLaws d) (c : Codec Message) (l : CodecLaws c) where
  ok_unit : (t u : d.Tx) → ◌≡◌ {A = Result (Unit {0} × d.Tx)} (ok (tt, t)) (ok (tt, u)) → t ≡ u
  ok_unit t u h = cc

  mark_step :
      (peer val : Bytes) (id : ℕ) (t t1 : d.Tx)
      → get_or_new_bucket d (dialogue peer) t ≡ ok t1
      → d.get t1 (dialogue peer) (put_be 8 id) ≡ some val
      → mark_reached d c peer id t ≡ (do
        bytes ← or_fault encode_error (c.encode (record (decoded d c val) { reached = true }))
        or_fault bolt_error (d.put t1 (dialogue peer) (put_be 8 id) bytes))
  unfolding mark_reached
  mark_step peer val id t t1 made e = rw (made, e)

  bucket_there :
      (peer val : Bytes) (id : ℕ) (t : d.Tx)
      → Held d w (dialogue peer) (put_be 8 id) val t
      → (t1 : d.Tx) × (get_or_new_bucket d (dialogue peer) t ≡ ok t1)
  bucket_there peer val id t x = (t, get_or_new_there d t (dialogue peer) x.closed x.there)

  pub no_entry :
      (peer : Bytes) (t : d.Tx) (id : ℕ)
      → ends_open (dialogue peer) ≡ false
      → d.get t (dialogue peer) (put_be 8 id) ≡ none
      → get_message d c peer id t ≡ err not_found
  unfolding get_message get_bucket ends_open suffix
  no_entry peer t id closed e = elim (Bool-cases (d.has t (dialogue peer))) [
    | inl there ↦ rw (closed, there, e)
    | inr missing ↦ rw (closed, missing)
  ]

  flushed :
      (peer : Bytes) (t v : d.Tx) (id : ℕ)
      → ends_open (dialogue peer) ≡ false
      → d.create (d.drop_bucket t (dialogue peer)) (dialogue peer) ≡ some v
      → get_message d c peer id v ≡ err not_found
  flushed peer t v id closed created = no_entry peer v id closed (
      w.get-create (d.drop_bucket t (dialogue peer)) v (dialogue peer) (dialogue peer) (put_be 8 id)
        created
      ∙ w.get-drop_bucket t (dialogue peer) (dialogue peer) (put_be 8 id)
      ∙ rw ((bytes_beq_iff (dialogue peer) (dialogue peer)).1 refl))

  decoded_ok : (val : Bytes) (m : Message) → c.decode val ≡ some m → decoded d c val ≡ m
  unfolding decoded
  decoded_ok val m e = rw (e, decoded) refl

  -- A stored message that is marked is stored as reached.
  mark-Stored :
      (peer : Bytes) (id : ℕ) (m : Message) (t u : d.Tx)
      → Stored d w c l peer id m t
      → mark_reached d c peer id t ≡ ok u
      → Stored d w c l peer id (record m { reached = true }) u
  mark-Stored peer id m t u (val, held, e) h =
      let (t1, made) = bucket_there peer val id t held in
      let after =
        get_or_new-Held d w t t1 (dialogue peer) (dialogue peer) (put_be 8 id) val made held in
      let h0 = sym (mark_step peer val id t t1 made after.entry) ∙ h in
      let same : decoded d c val ≡ m = decoded_ok val m e in
      let (v, encoded, put) =
        bind_ok (or_fault encode_error (c.encode (record (decoded d c val) { reached = true }))) _ u
          h0 in
      (
        v,
        put-Held d w t1 u (dialogue peer) (put_be 8 id) v after.closed after.there
            (or_fault_ok bolt_error _ u put),
        l.decode-encode (record m { reached = true }) v
            (ap (λ n. c.encode (record n { reached = true })) (sym same)
              ∙ or_fault_ok encode_error _ v encoded),
      )

  apart : (peer j k : Bytes) → same_entry (pending peer) j (dialogue peer) k ≡ false
  unfolding suffix
  apart peer j k = refl

  -- After a message that is stored was sent without an error, it is marked as reached, with nothing else
  -- of it changed, and it is no longer among those to send.
  pub finish_send_lem :
      (peer : Bytes) (id : ℕ) (m : Message) (t u : d.Tx)
      → Stored d w c l peer id m t
      → finish_send d c peer id t ≡ (ok tt, u)
      → (get_message d c peer id u ≡ ok (record m { reached = true }))
        × (d.get u (pending peer) (put_be 8 id) ≡ none)
  unfolding finish_send finish_send_in
  finish_send_lem peer id m t u x h =
      let h0 = update_ok d (finish_send_in d c peer id) t u tt h in
      let (t1, marked, h1) = bind_ok (mark_reached d c peer id t) _ (tt, u) h0 in
      let (t2, made, h2) = bind_ok (get_or_new_bucket d (pending peer) t1) _ (tt, u) h1 in
      let (t3, deleted, h3) =
        bind_ok (or_fault bolt_error (d.delete t2 (pending peer) (put_be 8 id))) _ (tt, u) h2 in
      let gone = or_fault_ok bolt_error _ t3 deleted in
      let (v, held, e) = mark-Stored peer id m t t1 x marked in
      let held2 =
        get_or_new-Held d w t1 t2 (pending peer) (dialogue peer) (put_be 8 id) v made held in
      let held3 =
        delete_other-Held d w t2 t3 (pending peer) (put_be 8 id) (dialogue peer) (put_be 8 id) v
          gone (apart peer (put_be 8 id) (put_be 8 id)) held2 in
      let same = ok_unit t3 u h3 in
      (
        Stored-get_message d w c l peer id (record m { reached = true }) u
            (subst (Stored d w c l peer id (record m { reached = true })) same (v, held3, e)),
        subst (λ s. d.get s (pending peer) (put_be 8 id) ≡ none) same
            (w.get-delete t2 t3 (pending peer) (put_be 8 id) (pending peer) (put_be 8 id) gone
              ∙ rw (
                (bytes_beq_iff (pending peer) (pending peer)).1 refl,
                (bytes_beq_iff (put_be 8 id) (put_be 8 id)).1 refl,
              )),
      )

  -- Flushing the dialogue with a peer whose identifier can name a bucket, without an error, leaves none of
  -- its messages, and every other bucket as it was.
  pub flush_messages_lem :
      (peer : Bytes) (t u : d.Tx)
      → ends_open (dialogue peer) ≡ false
      → flush_messages d peer t ≡ (ok tt, u)
      → ((id : ℕ) → get_message d c peer id u ≡ err not_found)
        × ((b k : Bytes) → bytes_beq (dialogue peer) b ≡ false → d.get u b k ≡ d.get t b k)
  unfolding flush_messages flush_in truncate_bucket
  flush_messages_lem peer t u closed h =
      let h0 = update_ok d (flush_in d peer) t u tt h in
      let (v, made, h1) = bind_ok (truncate_bucket d (dialogue peer) t) _ (tt, u) h0 in
      let created = or_fault_ok bolt_error _ v made in
      let same = ok_unit v u h1 in
      subst
        (λ s.
          ((id : ℕ) → get_message d c peer id s ≡ err not_found)
          × ((b k : Bytes) → bytes_beq (dialogue peer) b ≡ false → d.get s b k ≡ d.get t b k))
        same
        (
          λ id. flushed peer t v id closed created,
          λ b k ne.
              w.get-create (d.drop_bucket t (dialogue peer)) v (dialogue peer) b k created
              ∙ w.get-drop_bucket t (dialogue peer) b k
              ∙ rw ne refl,
        )

  refused : (front : Bytes) → ends_open (dialogue (front ++ underscore ∷ [])) ≡ true
  unfolding suffix
  refused front = open_suffix key_dialogue front underscore

  -- Send to a peer whose identifier ends in an underscore is refused and changes nothing.
  pub send_refused :
      (front mtype payload : Bytes) (ttl created now : ℕ) (t : d.Tx)
      → update d (send d c (front ++ underscore ∷ []) mtype payload ttl created now) t
        ≡ (err no_suffix, t)
  unfolding update commit send add_entry
  send_refused front mtype payload ttl created now t =
      rw (get_or_new_open d t (dialogue (front ++ underscore ∷ [])) (refused front))
