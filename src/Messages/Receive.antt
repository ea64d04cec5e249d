-- ===== src/Messages/Receive.antt =====
-- internal/client/service/message.go: `receive`, which takes the requests of the two protocols one after
-- the other, with what each leaves and answers.
use chat_libp2p.Common.{ℕ, true, Option, none, some, Bytes}
use chat_libp2p.Database.{Bolt, Result, ok, err, update}
use chat_libp2p.Peers.{Peer, Codec, save}
use chat_libp2p.Text as Txt
use chat_libp2p.Image as Img
use chat_libp2p.Messages.{Message, exists_received}
use chat_libp2p.Messages.Entries.{sync_text}
use chat_libp2p.Messages.Files.{Host, handle_sync_hash, handle_sync_bytes}

-- What Save of a peer does: nothing if it was done since the start, or else it asks QueryEVM.
pub data Saving : Type 0 where
  saved_before : Saving
  asks : Option Bytes → Saving

module _ (d : Bolt) (c : Codec Message) (cp : Codec Peer) (local_peer local_evm : Bytes)
    (name : Bytes → Bytes) where
  unfoldable pub save_sender : Bytes → Saving → d.Tx → d.Tx
  unfolding save
  save_sender peer saved_before t = t
  save_sender peer (asks queried) t = (save d cp local_peer local_evm (name peer) peer queried t).1

  -- The database, the response that is sent, and the number that the receiver of messages is told.
  pub record TextReply : Type 0 where
    pub tx : d.Tx
    pub response : Option Txt.Action
    pub received : Option ℕ

  unfoldable pub text_reply : Txt.Action → Result ℕ × d.Tx → TextReply
  text_reply a (err e, t) = record { tx = t; response = none; received = none }
  text_reply a (ok n, t) = record { tx = t; response = some a; received = some n }

  -- The cases of `receive` for the text protocol, with textExist.
  unfoldable pub receive_text : Bytes → Txt.Action → Saving → ℕ → ℕ → d.Tx → TextReply
  unfolding save_sender text_reply
  receive_text peer (Txt.req_sync_text id ttl content) saving created now t =
      text_reply (Txt.resp_sync_text id true)
        (update d (sync_text d c peer id ttl content created now) (save_sender peer saving t))
  receive_text peer (Txt.req_existence id) saving created now t = record {
    tx = t;
    response = some (Txt.resp_existence id (exists_received d peer id t));
    received = none;
  }
  receive_text peer (Txt.resp_sync_text id b) saving created now t = record {
    tx = t;
    response = none;
    received = none;
  }
  receive_text peer (Txt.resp_existence id b) saving created now t = record {
    tx = t;
    response = none;
    received = none;
  }

  module _ (h : Host) (dir : Bytes) where
    pub record ImageReply : Type 0 where
      pub files : h.Files
      pub tx : d.Tx
      pub response : Option Img.Action
      pub received : Option ℕ

    unfoldable pub ignored : h.Files → d.Tx → ImageReply
    ignored f t = record { files = f; tx = t; response = none; received = none }

    -- The cases for the image protocol, with imageExist.
    unfoldable pub receive_image :
        Bytes → Img.Action → Saving → ℕ → Bytes → h.Files → d.Tx → ImageReply
    unfolding save_sender ignored
    receive_image peer (Img.req_sync_hash id ext hash) saving created month f t =
        let o =
          handle_sync_hash h d c dir peer id ext hash created month f (save_sender peer saving t) in
        record { files = o.files; tx = o.tx; response = o.response; received = o.received }
    receive_image peer (Img.req_sync_bytes id subdir payload) saving created month f t =
        let o = handle_sync_bytes h d c dir peer id subdir payload created f t in
        record { files = o.files; tx = o.tx; response = o.response; received = o.received }
    receive_image peer (Img.req_existence id) saving created month f t = record {
      files = f;
      tx = t;
      response = some (Img.resp_existence id (exists_received d peer id t));
      received = none;
    }
    receive_image peer (Img.resp_sync_hash id b subdir) saving created month f t = ignored f t
    receive_image peer (Img.resp_sync_bytes id b) saving created month f t = ignored f t
    receive_image peer (Img.resp_existence id b) saving created month f t = ignored f t
