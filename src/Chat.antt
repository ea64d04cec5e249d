-- ===== src/Chat.antt =====
-- How the parts work together: a stored message is sent over a stream, read, handed to the protocol,
-- queued, and stored by the receiver (internal/client/service/message.go, internal/common/xrmmgr.go,
-- internal/common/protocol).
pub mod TextDelivery
pub mod TextReceipt
pub mod ImageDelivery
use chat_libp2p.Common.{ℕ, Bool, true, false, Option, none, some, List, [], ◌∷◌, Bytes, ◌>>=◌}
use chat_libp2p.Frame.{Frame}
use chat_libp2p.Streams.ReadLoop.{Call, meta_func, data_func, read_loop}
use chat_libp2p.Exchange.{Protocol, State, handle_meta, handle_data}
use chat_libp2p.Text as Txt
use chat_libp2p.Image as Img
use chat_libp2p.Database.{Bolt}
use chat_libp2p.Peers.{Peer, Codec}
use chat_libp2p.Messages.{Message}
use chat_libp2p.Messages.Files.{Host}
use chat_libp2p.Messages.Receive.{Saving, TextReply, ImageReply, receive_text, receive_image}

-- What becomes of a request: the network may lose it, or its response, or Request returns the peer's
-- response. It also takes a response with the request's identifier that another peer sends, or that is an
-- older request's; `foreign` says whether the request has reached the peer that was asked then.
pub data Fate (A : Type 0) : Type 0 where
  lost unanswered replied : Fate A
  foreign : (reached : Bool) → A → Fate A

-- What Request returns, if anything, is the asked peer's answer to this request.
abbrev pub IsOwnAnswer : {A : Type 0} → Fate A → Type 0
IsOwnAnswer (foreign reached a) = ⊥
IsOwnAnswer _ = Unit {0}

-- The request that AsyncSend makes of a text message.
unfoldable pub text_request : Message → Txt.Action
text_request m = Txt.req_sync_text m.id m.ttl m.payload

module _ (p : Protocol) where
  -- The two functions that a protocol gives its stream manager.
  unfoldable pub call : Bytes → Call → State p.Action → Option (State p.Action)
  unfolding handle_meta handle_data
  call peer (meta_func payload) s = handle_meta p peer payload s
  call peer (data_func payload) s = handle_data p peer payload s

  unfoldable pub call_all : Bytes → List Call → State p.Action → Option (State p.Action)
  unfolding call
  call_all peer [] s = some s
  call_all peer (x ∷ xs) s = elim (call peer x s) [ none ↦ none | some t ↦ call_all peer xs t ]

  -- A stream of a peer that is read to its end, for at most `fuel` frames.
  unfoldable pub arrive :
      (fuel alloc : ℕ) → Frame → Bytes → Bytes → State p.Action → Option (State p.Action)
  unfolding call_all read_loop
  arrive fuel alloc frame peer conn s = call_all peer (read_loop fuel alloc frame conn).0 s

-- Two peers: the requests of one are answered by the other, whose files and database change, unless
-- something else becomes of them. What the other peer knows of the sender, and the time, are arguments.
module _ (d : Bolt) (c : Codec Message) (cp : Codec Peer) (local_peer local_evm : Bytes)
    (name : Bytes → Bytes) where
  abbrev pub text_fate :
      Fate Txt.Action → TextReply d c cp local_peer local_evm name → d.Tx → d.Tx × Option Txt.Action
  text_fate lost r t = (t, none)
  text_fate unanswered r t = (r.tx, none)
  text_fate replied r t = (r.tx, r.response)
  text_fate (foreign true a) r t = (r.tx, some a)
  text_fate (foreign false a) r t = (t, some a)

  unfoldable pub ask_text_peer :
      (sender : Bytes) (fate : Txt.Action → Fate Txt.Action) (saving : Txt.Action → Saving)
      (created now : Txt.Action → ℕ)
      → Txt.Action
      → d.Tx
      → d.Tx × Option Txt.Action
  unfolding receive_text
  ask_text_peer sender fate saving created now a t =
      text_fate (fate a)
        (receive_text d c cp local_peer local_evm name sender a (saving a) (created a) (now a) t) t

  module _ (h : Host) (dir : Bytes) where
    abbrev pub image_fate :
        Fate Img.Action
        → ImageReply d c cp local_peer local_evm name h dir
        → h.Files × d.Tx
        → (h.Files × d.Tx) × Option Img.Action
    image_fate lost r s = (s, none)
    image_fate unanswered r s = ((r.files, r.tx), none)
    image_fate replied r s = ((r.files, r.tx), r.response)
    image_fate (foreign true a) r s = ((r.files, r.tx), some a)
    image_fate (foreign false a) r s = (s, some a)

    unfoldable pub ask_peer :
        (sender month : Bytes) (fate : Img.Action → Fate Img.Action) (saving : Img.Action → Saving)
        (created : Img.Action → ℕ)
        → Img.Action
        → h.Files × d.Tx
        → (h.Files × d.Tx) × Option Img.Action
    unfolding receive_image
    ask_peer sender month fate saving created a (f, t) =
        image_fate (fate a)
          (receive_image d c cp local_peer local_evm name h dir sender a (saving a) (created a)
            month f t)
          (f, t)
