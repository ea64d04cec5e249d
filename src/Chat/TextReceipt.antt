-- ===== src/Chat/TextReceipt.antt =====
-- A text message that one peer is told has arrived, and what the other peer then holds.
use chat_libp2p.Common.{ℕ, ◌≡◌, true, Option, Bytes}
use chat_libp2p.Database.{Bolt, BoltLaws, ok}
use chat_libp2p.Peers.{Peer, Codec, CodecLaws}
use chat_libp2p.Text as Txt
use chat_libp2p.Image as Img
use chat_libp2p.Chat.{Fate, IsOwnAnswer, ask_text_peer}
use chat_libp2p.Messages.{Message, exists_received}
use chat_libp2p.Messages.Entries.{get_message}
use chat_libp2p.Messages.Delivery.{text_message}
use chat_libp2p.Messages.Receive.{Saving}

module _ (d : Bolt) (w : BoltLaws d) (c : Codec Message) (l : CodecLaws c) (cp : Codec Peer)
    (local_peer local_evm : Bytes) (name : Bytes → Bytes) (sender : Bytes)
    (fate : Txt.Action → Fate Txt.Action) (own_answer : (a : Txt.Action) → IsOwnAnswer (fate a))
    (saving : Txt.Action → Saving) (created now : Txt.Action → ℕ) where
  -- The peer holds a text from the sender, which it knows as the request's.
  abbrev pub HoldsText : ℕ → ℕ → Bytes → d.Tx → Type 0
  HoldsText id ttl content u =
      (n : ℕ) × (at : ℕ) × (get_message d c sender n u ≡ ok (text_message content ttl at n))
      × (exists_received d sender id u ≡ true)

  abbrev ask_it : Txt.Action → d.Tx → d.Tx × Option Txt.Action
  ask_it = ask_text_peer d c cp local_peer local_evm name sender fate saving created now
