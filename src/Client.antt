-- ===== src/Client.antt =====
-- internal/client/client.go and route.go: what the client makes of its services' answers. peer.Decode and
-- the sort of Go's library are parameters.
pub mod Runs
pub mod Pictures
pub mod Listing
use chat_libp2p.Common.{
  ℕ, Bool, true, false, Option, none, some, List, [], ◌∷◌, ◌++◌, map, Bytes, bytes_beq, length,
  take, ltb, if◌then◌else◌,
}
use chat_libp2p.Common.Paths.{dir}
use chat_libp2p.Database.{Bolt, Result, ok, err, ◌>>=◌, unsupported, update}
use chat_libp2p.Peers.{Peer, Codec, Listed, find_all_without_local}
use chat_libp2p.Messages.{Message, type_text}
use chat_libp2p.Messages.Entries.{get_last_messages, send}
use chat_libp2p.Messages.Files.{Host, send_image}

-- A record of the list, with what PeerList takes for its last message.
pub record Entry : Type 0 where
  pub peer : Peer
  pub last_message : Option Message

abbrev pub last_time : Option Message → Option ℕ
last_time none = none
last_time (some m) = some m.created_at

abbrev pub listed : Entry → Listed
listed e = record { peer = e.peer; last = last_time e.last_message }

module _ (d : Bolt) (c : Codec Message) (cp : Codec Peer) (decode_peer : Bytes → Option Bytes) where
  unfoldable pub first_message : Result (List Message) → Option Message
  first_message (err e) = none
  first_message (ok []) = none
  first_message (ok (m ∷ ms)) = some m

  -- One round of the loop of PeerList.
  unfoldable pub with_last : d.Tx → Peer → Entry
  unfolding first_message
  with_last t p = elim (decode_peer p.id) [
    | none ↦ record { peer = p; last_message = none }
    | some id ↦ record { peer = p; last_message = first_message (get_last_messages d c id 0 1 t) }
  ]

  -- PeerList
  unfoldable pub peer_list : (List Entry → List Entry) → Bytes → d.Tx → Result (List Entry)
  unfolding with_last
  peer_list sort local_peer t = do
    peers ← find_all_without_local d cp local_peer t
    ok (sort (map (with_last t) peers))

  -- SendText
  unfoldable pub send_text : Bytes → Bytes → (ttl created now : ℕ) → d.Tx → Result ℕ × d.Tx
  send_text peer content ttl created now t =
      update d (send d c peer type_text content ttl created now) t

  module _ (h : Host) (image_dir : Bytes) where
    -- "payload might be a file path": the content that SendImage goes on with, or an error.
    unfoldable pub file_dir : Bytes → Bytes
    file_dir payload = if ltb 32 (length payload) then dir (take 32 payload) else dir payload

    unfoldable pub image_payload : h.Files → Bytes → Option Bytes
    unfolding file_dir
    image_payload f payload =
        if h.stat_ok f (file_dir payload) then h.read_file f payload else some payload

    -- SendImage
    unfoldable pub send_picture :
        Bytes → Bytes → Bytes → (created now : ℕ) → h.Files → d.Tx → Result ℕ × h.Files × d.Tx
    unfolding image_payload
    send_picture peer payload month created now f t = elim (image_payload f payload) [
      | none ↦ (err unsupported, f, t)
      | some content ↦ send_image h d c image_dir peer content month 0 created now f t
    ]

-- FindPeer of the route: the first of the peers that arrive with the identifier, until the queue is closed;
-- `none` also stands for the context's end.
unfoldable pub find_peer {ℓ} : {A : Type ℓ} → Bytes → List (Bytes × A) → Option (Bytes × A)
find_peer id [] = none
find_peer id ((j, a) ∷ rest) =
    let others = find_peer id rest in if bytes_beq j id then some (j, a) else others
