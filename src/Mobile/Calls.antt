-- ===== src/Mobile/Calls.antt =====
-- cmd/client/mobile/main.go: Send of a session, the list of peers and the calls that are passed on after
-- peer.Decode.
pub mod Shown
pub mod Sent
use chat_libp2p.Common.{
  ℕ, ◌*◌, ◌%◌, ◌^◌, Bool, true, false, Option, none, some, List, [], ◌∷◌, map, Bytes, bytes_beq,
  length, if◌then◌else◌,
}
use chat_libp2p.Database.{Bolt, Result, ok, err, ◌>>=◌, decode_error, unsupported}
use chat_libp2p.Peers.{Peer, Codec, find, set_pin, set_remark}
use chat_libp2p.Messages.{Message, type_text, type_image, flush_messages}
use chat_libp2p.Messages.Entries.{get_message}
use chat_libp2p.Messages.Files.{Host}
use chat_libp2p.Client.{Entry, peer_list, send_text, send_picture}
use chat_libp2p.Mobile.{Node, View, format_uint, millis, unix_millis, view, link}

-- The fields of a Peer object, without `next`.
pub record PeerView : Type 0 where
  pub id : Bytes
  pub evm_addr : Bytes
  pub remark : Bytes
  pub pin : Bool
  pub last_message : Option View

unfoldable pub peer_view : Entry → PeerView
unfolding view
peer_view e = record {
  id = e.peer.id;
  evm_addr = e.peer.evm_addr;
  remark = e.peer.remark;
  pin = e.peer.pin;
  last_message = elim e.last_message [ none ↦ none | some m ↦ some (view e.peer.id m) ];
}

-- The fields that Send writes into the object that it was given.
unfoldable pub sent_view : View → Message → View
unfolding format_uint millis
sent_view v m = record v {
  id = format_uint m.id;
  mtype = m.mtype;
  payload = m.payload;
  reached = m.reached;
  initiator = m.initiator;
  created_at = unix_millis m.created_at;
  ttl = millis m.ttl;
}

-- time.Millisecond * ttl: a duration is a word of 64 bits.
abbrev pub nanoseconds : ℕ → ℕ
nanoseconds ms = ms * 1000000 % 2 ^ 64

module _ (d : Bolt) (c : Codec Message) (cp : Codec Peer) (decode_peer : Bytes → Option Bytes) where
  unfoldable pub linked : Result (List Entry) → Result (List (Node PeerView) × Option ℕ)
  unfolding link peer_view
  linked (err e) = err e
  linked (ok es) = ok (link (map peer_view es))

  -- GetPeerList
  unfoldable pub get_peer_list :
      (List Entry → List Entry) → Bytes → d.Tx → Result (List (Node PeerView) × Option ℕ)
  unfolding peer_list linked
  get_peer_list sort local_peer t = linked (peer_list d c cp decode_peer sort local_peer t)

  -- GetPeerInfo
  unfoldable pub info_view : Bytes → Result Peer → Result PeerView
  info_view name (err e) = err e
  info_view name (ok p) = ok (record {
    id = name;
    evm_addr = p.evm_addr;
    remark = p.remark;
    pin = p.pin;
    last_message = none;
  })

  unfoldable pub get_peer_info : Bytes → d.Tx → Result PeerView
  unfolding info_view
  get_peer_info name t = elim (decode_peer name) [
    | none ↦ err decode_error
    | some id ↦ info_view name (find d cp id t)
  ]

  -- PinSession, UnpinSession, SetRemark and DeleteDialogue
  unfoldable pub pin_session : Bytes → Bool → d.Tx → Result (Unit {0}) × d.Tx
  pin_session name on t = elim (decode_peer name) [
    | none ↦ (err decode_error, t)
    | some id ↦ set_pin d cp id on t
  ]

  unfoldable pub remark_session : Bytes → Bytes → d.Tx → Result (Unit {0}) × d.Tx
  remark_session name text t = elim (decode_peer name) [
    | none ↦ (err decode_error, t)
    | some id ↦ set_remark d cp id text t
  ]

  unfoldable pub delete_dialogue : Bytes → d.Tx → Result (Unit {0}) × d.Tx
  delete_dialogue name t = elim (decode_peer name) [
    | none ↦ (err decode_error, t)
    | some id ↦ flush_messages d id t
  ]

  module _ (h : Host) (image_dir : Bytes) where
    -- The switch of Send on the object's type; an object of another type is refused.
    unfoldable pub post :
        Bytes → Bytes → (created now : ℕ) → View → h.Files → d.Tx → Result ℕ × h.Files × d.Tx
    unfolding send_text send_picture
    post peer month created now v f t =
        if bytes_beq v.mtype type_text
        then (let (r, u) =
              send_text d c cp decode_peer peer v.payload (nanoseconds v.ttl) created now t in
            (r, f, u))
        else if bytes_beq v.mtype type_image
        then send_picture d c cp decode_peer h image_dir peer v.payload month created now f t
        else (err unsupported, f, t)

    unfoldable pub read_again : View → Result Message → Result View
    unfolding sent_view
    read_again v (err e) = err e
    read_again v (ok m) = ok (sent_view v m)

    -- Send, with the object as it is left.
    unfoldable pub posted : Bytes → View → Result ℕ × h.Files × d.Tx → Result View × h.Files × d.Tx
    unfolding read_again
    posted peer v (err e, f, t) = (err e, f, t)
    posted peer v (ok mid, f, t) = (read_again v (get_message d c peer mid t), f, t)

    unfoldable pub session_send :
        Bytes → Bytes → (created now : ℕ) → View → h.Files → d.Tx → Result View × h.Files × d.Tx
    unfolding post posted
    session_send peer month created now v f t = posted peer v (post peer month created now v f t)
