-- ===== src/Messages/Ordering.antt =====
-- internal/client/service/message.go: the two goroutines that AsyncSend starts for a message, each from
-- its request to the transaction at its end. What Request does with the text and with the image protocol
-- is a parameter over the state of everything that it changes; `none` is an error of it.
use chat_libp2p.Common.{ℕ, Bool, true, false, Option, none, some, Bytes, bytes_beq, if◌then◌else◌}
use chat_libp2p.Common.Paths.{base}
use chat_libp2p.Database.{Bolt, Result, ok, err}
use chat_libp2p.Peers.{Codec}
use chat_libp2p.Text as Txt
use chat_libp2p.Image as Img
use chat_libp2p.Messages.{Message, type_text, type_image}
use chat_libp2p.Messages.Entries.{finish_check, finish_send}
use chat_libp2p.Messages.Files.{Host}

-- What the requests of one message came to.
pub data Ordered : Type 0 where
  ordered request_error order_panic : Ordered

pub data Checked : Type 0 where
  checked : (exist : Bool) → Checked
  check_error check_panic : Checked

abbrev pub got_reply : {A : Type 0} → Option A → Ordered
got_reply none = request_error
got_reply (some a) = ordered

module _ {S : Type 0} (h : Host) (is_sep : ℕ → Bool)
    (ask_text : Txt.Action → S → S × Option Txt.Action)
    (ask_image : Img.Action → S → S × Option Img.Action) where
  -- The second request of an image, with what was read from its file.
  unfoldable pub send_bytes : ℕ → Bytes → Option Bytes → S → S × Ordered
  send_bytes id subdir none s = (s, request_error)
  send_bytes id subdir (some payload) s =
      let (t, r) = ask_image (Img.req_sync_bytes id subdir payload) s in (t, got_reply r)

  -- A response that is not OK() is taken for a RespSyncHash; another type panics.
  unfoldable pub after_refusal : ℕ → Option Bytes → Img.Action → S → S × Ordered
  unfolding send_bytes
  after_refusal id content (Img.resp_sync_hash i b subdir) s = send_bytes id subdir content s
  after_refusal id content _ s = (s, order_panic)

  unfoldable pub after_hash : ℕ → Option Bytes → Option Bool → Img.Action → S → S × Ordered
  unfolding after_refusal
  after_hash id content (some true) a s = (s, ordered)
  after_hash id content (some false) a s = after_refusal id content a s
  after_hash id content none a s = (s, order_panic)

  unfoldable pub hash_reply : ℕ → Option Bytes → S × Option Img.Action → S × Ordered
  unfolding after_hash
  hash_reply id content (s, none) = (s, request_error)
  hash_reply id content (s, some a) = after_hash id content (Img.response_ok a) a s

  unfoldable pub order_image : h.Files → ℕ → Bytes → S → S × Ordered
  unfolding hash_reply
  order_image f id filename s =
      hash_reply id (h.read_file f filename)
        (ask_image (Img.new_req_sync_hash is_sep id (base filename)) s)

  unfoldable pub order_text : ℕ → ℕ → Bytes → S → S × Ordered
  order_text id ttl content s =
      let (t, r) = ask_text (Txt.req_sync_text id ttl content) s in (t, got_reply r)

  -- The requests that send a message; of any other type there is none.
  unfoldable pub order_message : h.Files → Message → S → S × Ordered
  unfolding order_image order_text
  order_message f m s =
      if bytes_beq m.mtype type_text
      then order_text m.id m.ttl m.payload s
      else if bytes_beq m.mtype type_image
      then order_image f m.id m.payload s
      else (s, ordered)

  unfoldable pub text_checked : S × Option Txt.Action → S × Checked
  text_checked (s, none) = (s, check_error)
  text_checked (s, some a) =
      (s, elim (Txt.response_ok a) [ none ↦ check_panic | some b ↦ checked b ])

  unfoldable pub image_checked : S × Option Img.Action → S × Checked
  image_checked (s, none) = (s, check_error)
  image_checked (s, some a) =
      (s, elim (Img.response_ok a) [ none ↦ check_panic | some b ↦ checked b ])

  -- The request that asks whether a message is there; of any other type the response is nil.
  unfoldable pub check_message : Message → S → S × Checked
  unfolding text_checked image_checked
  check_message m s =
      if bytes_beq m.mtype type_text
      then text_checked (ask_text (Txt.req_existence m.id) s)
      else if bytes_beq m.mtype type_image
      then image_checked (ask_image (Img.req_existence m.id) s)
      else (s, check_panic)

  module _ (d : Bolt) (c : Codec Message) (peer : Bytes) where
    -- The end of a goroutine: the database, and whether the front end is told that the message arrived.
    unfoldable pub notified : Bool → Result (Unit {0}) × d.Tx → d.Tx × Bool
    notified wanted (ok u, t) = (t, wanted)
    notified wanted (err e, t) = (t, false)

    unfoldable pub send_end : ℕ → Ordered → d.Tx → d.Tx × Bool
    unfolding notified
    send_end id ordered t = notified true (finish_send d c peer id t)
    send_end id request_error t = (t, false)
    send_end id order_panic t = (t, false)

    -- A message of `send`. A panic ends the program; then nothing is told.
    unfoldable pub run_send : h.Files → Message → S → d.Tx → S × d.Tx × Bool
    unfolding order_message send_end
    run_send f m s t =
        let (u, o) = order_message f m s in let (v, told) = send_end m.id o t in (u, v, told)

    unfoldable pub check_end : Message → Checked → d.Tx → d.Tx × Bool
    unfolding notified
    check_end m (checked exist) t = notified m.reached (finish_check d c peer m.id exist t)
    check_end m check_error t = (t, false)
    check_end m check_panic t = (t, false)

    -- A message of `check`: `data.Reached` is that of the message as it was read before.
    unfoldable pub run_check : Message → S → d.Tx → S × d.Tx × Bool
    unfolding check_message check_end
    run_check m s t =
        let (u, o) = check_message m s in let (v, told) = check_end m o t in (u, v, told)
