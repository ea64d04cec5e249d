-- ===== src/Messages.antt =====
-- internal/client/service/message.go and model/message.go: the messages that the database keeps, in one
-- bucket per peer, with what is still to be sent, what was received and what is to be destroyed. The
-- times that the code reads from the clock are arguments, in nanoseconds; a ttl is the 64-bit word of a
-- time.Duration. A pass of the destroy loop reads the clock once, and its keys and values have the eight
-- bytes that the code takes from them.
pub mod Timer
pub mod Claims
pub mod Entries
pub mod Kept
pub mod Delivery
pub mod Finish
pub mod Expiry
pub mod Files
pub mod Images
pub mod ImageBytes
pub mod Deletion
pub mod Ordering
pub mod Told
pub mod Sequence
pub mod Resent
pub mod Answers
pub mod Receive
use chat_libp2p.Common.{
  ℕ, ◌+◌, ◌-◌, ◌^◌, ◌%◌, Bool, true, false, Option, none, some, List, [], ◌∷◌, ◌++◌, ◌&&◌, ◌||◌,
  ltb, leb, if◌then◌else◌, Bytes, put_be, be_value, take, drop, length,
}
use chat_libp2p.Database.{
  Bolt, Result, Fault, ok, err, ◌>>=◌, or_fault, not_found, bolt_error, encode_error, decode_error,
  codes, suffix, key_dialogue, key_msg_pending, key_msg_received, key_destroy_msg, key_images,
  get_bucket, get_or_new_bucket, truncate_bucket, update,
}
use chat_libp2p.Peers.{Codec}

abbrev pub type_text : Bytes
type_text = codes "text/plain"

abbrev pub type_image : Bytes
type_image = codes "image/any"

-- MessageSendingPeriod, ten seconds
abbrev pub sending_period : ℕ
sending_period = 10000000000

pub record Message : Type 0 where
  pub id : ℕ
  pub mtype : Bytes
  pub payload : Bytes
  pub reached : Bool
  pub initiator : Bool
  pub created_at : ℕ
  pub ttl : ℕ

-- `ttl > 0` of a signed 64-bit word
unfoldable pub is_positive : ℕ → Bool
is_positive ttl = ltb 0 ttl && ltb ttl (2 ^ 63)

abbrev pub dialogue : Bytes → Bytes
dialogue peer = suffix key_dialogue peer

abbrev pub pending : Bytes → Bytes
pending peer = suffix key_msg_pending peer

abbrev pub received : Bytes → Bytes
received peer = suffix key_msg_received peer

module _ (d : Bolt) where
  -- A bucket found or made, and an entry put there.
  unfoldable pub put_in : Bytes → Bytes → Bytes → d.Tx → Result d.Tx
  unfolding get_or_new_bucket
  put_in b k v t = do t1 ← get_or_new_bucket d b t; or_fault bolt_error (d.put t1 b k v)

  -- GetBucket with its error dropped: whether there is a bucket.
  unfoldable pub has_bucket : Bytes → d.Tx → Bool
  unfolding get_bucket
  has_bucket b t = elim (get_bucket d b t) [ err e ↦ false | ok found ↦ found ]

  -- The entry that the destroy loop reads: the time, then the identifier and the peer.
  unfoldable pub schedule : Bytes → ℕ → ℕ → ℕ → d.Tx → Result d.Tx
  unfolding put_in is_positive
  schedule peer id ttl now t =
      if is_positive ttl
      then put_in key_destroy_msg (put_be 8 ((now + ttl) % 2 ^ 64)) (put_be 8 id ++ peer) t
      else ok t

  -- textExist and imageExist
  unfoldable pub exists_received : Bytes → ℕ → d.Tx → Bool
  unfolding has_bucket
  exists_received peer id t =
      if has_bucket (received peer) t
      then elim (d.get t (received peer) (put_be 8 id)) [ none ↦ false | some v ↦ true ]
      else false

  -- getSubdir without the directory it makes: `month` is the year and the month of now. The variable is
  -- set only where the value is nil, to the empty string.
  unfoldable pub stored_subdir : Bytes → d.Tx → Bytes
  unfolding has_bucket
  stored_subdir filebase t =
      if has_bucket key_images t
      then elim (d.get t key_images filebase) [ none ↦ [] | some v ↦ [] ]
      else []

  unfoldable pub get_subdir : Bytes → Bytes → d.Tx → Result Bytes × d.Tx
  unfolding update put_in stored_subdir
  get_subdir filebase month t = elim (stored_subdir filebase t) [
    | [] ↦ update d (λ u. do u1 ← put_in key_images filebase month u; ok (month, u1)) t
    | c ∷ cs ↦ (ok (c ∷ cs), t)
  ]

  -- Delete of an entry where there is a bucket.
  unfoldable pub delete_in : Bytes → Bytes → d.Tx → Result d.Tx
  unfolding has_bucket
  delete_in b k t = if has_bucket b t then or_fault bolt_error (d.delete t b k) else ok t

  -- `time.Since(t) > 0` for the signed word of the key
  unfoldable pub is_past : ℕ → ℕ → Bool
  is_past now timestamp = leb (2 ^ 63) timestamp || ltb timestamp now

  -- The loop of one pass of destory: it stops at the first entry whose time has passed.
  unfoldable pub destroy_entries : ℕ → List (Bytes × Bytes) → d.Tx → Result d.Tx
  unfolding delete_in is_past
  destroy_entries now [] t = ok t
  destroy_entries now ((k, v) ∷ rest) t =
      let others = destroy_entries now rest in
      if is_past now (be_value 0 (take 8 k)) then ok t else (do
        t1 ← delete_in (dialogue (drop 8 v)) (take 8 v) t
        t2 ← delete_in (pending (drop 8 v)) (take 8 v) t1
        others t2)

  unfoldable pub destroy_in : ℕ → d.Tx → Result (Unit {0} × d.Tx)
  unfolding has_bucket destroy_entries
  destroy_in now t =
      if has_bucket key_destroy_msg t
      then (do u ← destroy_entries now (d.cursor t key_destroy_msg) t; ok (tt, u))
      else ok (tt, t)

  unfoldable pub destroy_pass : ℕ → d.Tx → Result (Unit {0}) × d.Tx
  unfolding update destroy_in
  destroy_pass now = update d (destroy_in now)

  unfoldable pub delete_all : Bytes → List ℕ → d.Tx → Bool × d.Tx
  delete_all peer [] t = (true, t)
  delete_all peer (id ∷ ids) t =
      let others = delete_all peer ids in
      elim (d.delete t (dialogue peer) (put_be 8 id)) [
        | none ↦ (false, (others t).1)
        | some u ↦ others u
      ]

  -- An error of one entry is reported at the end.
  unfoldable pub delete_ids : Bool × d.Tx → Result (Unit {0} × d.Tx)
  delete_ids (true, t) = ok (tt, t)
  delete_ids (false, t) = err bolt_error

  unfoldable pub del_in : Bytes → List ℕ → d.Tx → Result (Unit {0} × d.Tx)
  unfolding get_or_new_bucket delete_all delete_ids
  del_in peer ids t = do
    t1 ← get_or_new_bucket d (dialogue peer) t
    delete_ids (delete_all peer ids t1)

  -- DelMessages
  unfoldable pub del_messages : Bytes → List ℕ → d.Tx → Result (Unit {0}) × d.Tx
  unfolding update del_in
  del_messages peer ids = update d (del_in peer ids)

  unfoldable pub flush_in : Bytes → d.Tx → Result (Unit {0} × d.Tx)
  unfolding truncate_bucket
  flush_in peer t = do u ← truncate_bucket d (dialogue peer) t; ok (tt, u)

  unfoldable pub flush_messages : Bytes → d.Tx → Result (Unit {0}) × d.Tx
  unfolding update flush_in
  flush_messages peer = update d (flush_in peer)
