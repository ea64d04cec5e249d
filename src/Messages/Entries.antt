-- ===== src/Messages/Entries.antt =====
-- internal/client/service/message.go: the transactions that write and read the entries of a dialogue.
use chat_libp2p.Common.{
  ℕ, ◌-◌, Bool, true, false, none, some, List, [], ◌∷◌, ◌||◌, ltb, if◌then◌else◌, Bytes, put_be,
}
use chat_libp2p.Database.{
  Bolt, Result, ok, ◌>>=◌, or_fault, not_found, bolt_error, encode_error, decode_error, get_bucket,
  get_or_new_bucket, update,
}
use chat_libp2p.Peers.{Codec}
use chat_libp2p.Messages.{
  Message, type_text, type_image, sending_period, dialogue, pending, received, put_in, has_bucket,
  schedule,
}

module _ (d : Bolt) (c : Codec Message) where
  -- A message put into the dialogue under the next number.
  unfoldable pub add_entry : Bytes → (ℕ → Message) → d.Tx → Result (ℕ × d.Tx)
  unfolding get_or_new_bucket
  add_entry peer make t = do
    t1 ← get_or_new_bucket d (dialogue peer) t
    (id, t2) ← or_fault bolt_error (d.next_sequence t1 (dialogue peer))
    bytes ← or_fault encode_error (c.encode (make id))
    t3 ← or_fault bolt_error (d.put t2 (dialogue peer) (put_be 8 id) bytes)
    ok (id, t3)

  -- syncText: `created` and `now` are the two times that it reads.
  unfoldable pub sync_text : Bytes → ℕ → ℕ → Bytes → ℕ → ℕ → d.Tx → Result (ℕ × d.Tx)
  unfolding add_entry put_in schedule
  sync_text peer req_id ttl content created now t = do
    (id, t1) ←
        add_entry peer
          (λ id. record {
            id = id;
            mtype = type_text;
            payload = content;
            reached = true;
            initiator = false;
            created_at = created;
            ttl = ttl;
          })
          t
    t2 ← put_in d (received peer) (put_be 8 req_id) [] t1
    t3 ← schedule d peer id ttl now t2
    ok (id, t3)

  unfoldable pub image_message : Bytes → ℕ → ℕ → Message
  image_message filename created id = record {
    id = id;
    mtype = type_image;
    payload = filename;
    reached = true;
    initiator = false;
    created_at = created;
    ttl = 0;
  }

  -- syncHash, where the file is there and has the hash.
  unfoldable pub sync_hash : Bytes → ℕ → Bytes → ℕ → d.Tx → Result (ℕ × d.Tx)
  unfolding add_entry put_in image_message
  sync_hash peer req_id filename created t = do
    (id, t1) ← add_entry peer (image_message filename created) t
    t2 ← put_in d (received peer) (put_be 8 req_id) [] t1
    ok (id, t2)

  -- syncBytes, once the file is written.
  unfoldable pub sync_bytes : Bytes → ℕ → Bytes → ℕ → d.Tx → Result (ℕ × d.Tx)
  unfolding add_entry put_in image_message
  sync_bytes peer req_id filename created t = do
    (id, t1) ← add_entry peer (image_message filename created) t
    t2 ← put_in d (received peer) (put_be 8 req_id) [] t1
    ok (id, t2)

  -- Send, once the payload of an image is its file's name.
  unfoldable pub send : Bytes → Bytes → Bytes → ℕ → ℕ → ℕ → d.Tx → Result (ℕ × d.Tx)
  unfolding add_entry put_in schedule
  send peer mtype payload ttl created now t = do
    (id, t1) ←
        add_entry peer
          (λ id. record {
            id = id;
            mtype = mtype;
            payload = payload;
            reached = false;
            initiator = true;
            created_at = created;
            ttl = ttl;
          })
          t
    t2 ← put_in d (pending peer) (put_be 8 id) [] t1
    t3 ← schedule d peer id ttl now t2
    ok (id, t3)

  unfoldable pub get_message : Bytes → ℕ → d.Tx → Result Message
  unfolding get_bucket
  get_message peer id t = do
    found ← get_bucket d (dialogue peer) t
    val ← or_fault not_found (if found then d.get t (dialogue peer) (put_be 8 id) else none)
    or_fault decode_error (c.decode val)

  -- The loop of GetLastMessages, from the last entry to the first.
  unfoldable pub decode_messages : List (Bytes × Bytes) → Result (List Message)
  decode_messages [] = ok []
  decode_messages ((k, v) ∷ rest) = do
    m ← or_fault decode_error (c.decode v)
    ms ← decode_messages rest
    ok (m ∷ ms)

  -- GetLastMessages: its two numbers are not read.
  unfoldable pub get_last_messages : Bytes → (offset limit : ℕ) → d.Tx → Result (List Message)
  unfolding get_bucket decode_messages
  get_last_messages peer offset limit t = do
    found ← get_bucket d (dialogue peer) t
    if found then decode_messages (d.cursor t (dialogue peer)) else ok []

  -- AsyncSend, the first transaction: what is to be asked for, and what is to be sent.
  unfoldable pub is_late : ℕ → Message → Bool
  is_late now m = ltb sending_period (now - m.created_at) || ltb now m.created_at

  -- Decode with its error dropped.
  unfoldable pub decoded : Bytes → Message
  decoded val = elim (c.decode val) [ none ↦ c.leftover val | some m ↦ m ]

  unfoldable pub sort_pending :
      ℕ → Bytes → d.Tx → List (Bytes × Bytes) → List Message × List Message
  unfolding is_late decoded
  sort_pending now peer t [] = ([], [])
  sort_pending now peer t ((k, v) ∷ rest) =
      let others = sort_pending now peer t rest in
      elim (d.get t (dialogue peer) k) [
        | none ↦ others
        | some val ↦
            let m = decoded val in
            if is_late now m then (m ∷ others.0, others.1) else (others.0, m ∷ others.1)
      ]

  unfoldable pub split_pending : ℕ → Bytes → d.Tx → List Message × List Message
  unfolding has_bucket sort_pending
  split_pending now peer t =
      if has_bucket d (pending peer) t
      then if has_bucket d (dialogue peer) t
        then sort_pending now peer t (d.cursor t (pending peer))
        else ([], [])
      else ([], [])

  unfoldable pub mark_reached : Bytes → ℕ → d.Tx → Result d.Tx
  unfolding get_or_new_bucket decoded
  mark_reached peer id t = do
    t1 ← get_or_new_bucket d (dialogue peer) t
    elim (d.get t1 (dialogue peer) (put_be 8 id)) [
      | none ↦ ok t1
      | some val ↦ do
        bytes ← or_fault encode_error (c.encode (record (decoded val) { reached = true }))
        or_fault bolt_error (d.put t1 (dialogue peer) (put_be 8 id) bytes)
    ]

  -- The end of a request that asked whether a message is there.
  unfoldable pub finish_check_in : Bytes → ℕ → Bool → d.Tx → Result (Unit {0} × d.Tx)
  unfolding mark_reached get_or_new_bucket
  finish_check_in peer id exist t = do
    t1 ← (if exist then mark_reached peer id t else ok t)
    t2 ← get_or_new_bucket d (pending peer) t1
    t3 ← or_fault bolt_error (d.delete t2 (pending peer) (put_be 8 id))
    ok (tt, t3)

  unfoldable pub finish_check : Bytes → ℕ → Bool → d.Tx → Result (Unit {0}) × d.Tx
  unfolding update finish_check_in
  finish_check peer id exist = update d (finish_check_in peer id exist)

  -- The end of a request that sent a message.
  unfoldable pub finish_send_in : Bytes → ℕ → d.Tx → Result (Unit {0} × d.Tx)
  unfolding mark_reached get_or_new_bucket
  finish_send_in peer id t = do
    t1 ← mark_reached peer id t
    t2 ← get_or_new_bucket d (pending peer) t1
    t3 ← or_fault bolt_error (d.delete t2 (pending peer) (put_be 8 id))
    ok (tt, t3)

  unfoldable pub finish_send : Bytes → ℕ → d.Tx → Result (Unit {0}) × d.Tx
  unfolding update finish_send_in
  finish_send peer id = update d (finish_send_in peer id)
