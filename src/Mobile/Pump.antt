-- ===== src/Mobile/Pump.antt =====
-- cmd/client/mobile/main.go: the two goroutines that Init starts for a client, which turn what the client
-- tells into events. `name` is String of an identifier, which is a parameter.
pub mod Handed
use chat_libp2p.Common.{ℕ, Bytes}
use chat_libp2p.Database.{Bolt, Result, ok, err}
use chat_libp2p.Peers.{Codec}
use chat_libp2p.Messages.{Message}
use chat_libp2p.Messages.Entries.{get_message}
use chat_libp2p.Mobile.Sdk.{Sdk, arrived_event, received_event, offer}

unfoldable pub pump_found : (peer_text : Bytes) → Result Message → Sdk → Sdk
unfolding received_event offer
pump_found peer_text (err e) s = s
pump_found peer_text (ok m) s = offer (received_event peer_text m) s

-- A round of the loop around ReceiveMessage.
unfoldable pub pump_received :
    (d : Bolt) → Codec Message → (Bytes → Bytes) → Bytes → ℕ → d.Tx → Sdk → Sdk
unfolding pump_found
pump_received d c name peer mid t s = pump_found (name peer) (get_message d c peer mid t) s

-- A round of the loop around MessageArrived.
unfoldable pub pump_arrived : (Bytes → Bytes) → Bytes → ℕ → Sdk → Sdk
unfolding arrived_event offer
pump_arrived name peer mid s = offer (arrived_event (name peer) mid) s
