-- ===== src/Mobile/Sdk.antt =====
-- cmd/client/mobile/main.go: the state of the SDK, which its calls change under its locks and which its
-- goroutines change through its channels. peer.Decode is a parameter.
pub mod Single
pub mod Sound
pub mod Feed
use chat_libp2p.Common.{
  ℕ, zero, suc, ◌%◌, ◌^◌, Bool, true, false, Option, none, some, List, [], ◌∷◌, ◌++◌, Bytes, length,
  ltb, put, if◌then◌else◌,
}
use chat_libp2p.Database.{Result, ok, err, decode_error, unsupported}
use chat_libp2p.Messages.{Message}
use chat_libp2p.Mobile.{View, format_uint, view}

pub data Event : Type 0 where
  arrived : (peer_id message_id : Bytes) → Event
  received : View → Event

-- What the two goroutines of a client make of what they get: MessageArrived's, and the message that
-- ReceiveMessage's number finds. The text of the peer's identifier, peerID.String(), is their argument.
unfoldable pub arrived_event : Bytes → ℕ → Event
unfolding format_uint
arrived_event peer_text mid = arrived peer_text (format_uint mid)

unfoldable pub received_event : Bytes → Message → Event
unfolding view
received_event peer_text m = received (record (view peer_text m) { ttl = 0 })

-- The objects of a kind that were made, Notifiers or Sessions, numbered in their order: which of them are
-- halted, and which one the SDK holds.
pub record Handles : Type 0 where
  pub made : ℕ
  pub halted : ℕ → Bool
  pub held : Option ℕ

abbrev pub no_handles : Handles
no_handles = record { made = 0; halted = λ i. false; held = none }

-- Close of an object: its channel is closed once.
unfoldable pub halt : Option ℕ → (ℕ → Bool) → ℕ → Bool
halt none h = h
halt (some i) h = put i true h

-- The one that is held is closed, and a new one is held.
unfoldable pub renew : Handles → Handles
unfolding halt
renew s = record { made = suc s.made; halted = halt s.held s.halted; held = some s.made }

unfoldable pub discard : Handles → Handles
unfolding halt
discard s = record s { halted = halt s.held s.halted; held = none }

-- The front end closes an object that it was given.
unfoldable pub end_handle : ℕ → Handles → Handles
unfolding halt
end_handle i s = if ltb i s.made then record s { halted = halt (some i) s.halted } else s

-- Calls of Init are numbered; `placed` are those whose cancel function was put into `stopper`.
pub record Sdk : Type 0 where
  pub notifiers : Handles
  pub sessions : Handles
  pub peer_of : ℕ → Bytes
  pub probes : List Bytes
  pub events : List Event
  pub stopper : Option ℕ
  pub placed : ℕ → Bool
  pub cancelled : ℕ → Bool

abbrev pub new_sdk : Sdk
new_sdk = record {
  notifiers = no_handles;
  sessions = no_handles;
  peer_of = λ i. [];
  probes = [];
  events = [];
  stopper = none;
  placed = λ n. false;
  cancelled = λ n. false;
}

-- `make(chan Event, 1000)`
abbrev pub event_slots : ℕ
event_slots = 1000

-- A goroutine's event, which is lost when the channel is full.
unfoldable pub offer : Event → Sdk → Sdk
offer e s =
    if ltb (length s.events) event_slots then record s { events = s.events ++ e ∷ [] } else s

-- GetNotifier
unfoldable pub get_notifier : Sdk → Sdk
unfolding renew
get_notifier s = record s { notifiers = renew s.notifiers }

-- OpenSession, for an identifier that peer.Decode accepts; it starts a probe.
unfoldable pub open_decoded : Option Bytes → Sdk → Result ℕ × Sdk
unfolding renew
open_decoded none s = (err decode_error, s)
open_decoded (some peer) s = (
  ok s.sessions.made,
  record s {
    sessions = renew s.sessions;
    peer_of = put s.sessions.made peer s.peer_of;
    probes = s.probes ++ peer ∷ [];
  },
)

-- A round of Init's loop, until the cancel function is placed.
unfoldable pub place_stop : ℕ → Option ℕ → Sdk → Sdk
place_stop n none s = record s { stopper = some n; placed = put n true s.placed }
place_stop n (some old) s = record s { stopper = none; cancelled = put old true s.cancelled }

unfoldable pub init_round : ℕ → Sdk → Sdk
unfolding place_stop
init_round n s = if s.placed n then s else place_stop n s.stopper s

unfoldable pub take_stop : Option ℕ → Sdk → Sdk
take_stop none s = s
take_stop (some old) s = record s { stopper = none; cancelled = put old true s.cancelled }

-- SDK.Close
unfoldable pub close_sdk : Sdk → Sdk
unfolding discard take_stop
close_sdk s =
    take_stop s.stopper
      (record s { notifiers = discard s.notifiers; sessions = discard s.sessions })

-- Notifier.Get: nothing while it waits. If an event waits and the notifier is halted, either may come.
unfoldable pub take_event : (halted prefer : Bool) → List Event → Option (Result Event) × List Event
take_event false prefer [] = (none, [])
take_event true prefer [] = (some (err unsupported), [])
take_event true true (e ∷ es) = (some (err unsupported), e ∷ es)
take_event true false (e ∷ es) = (some (ok e), es)
take_event false prefer (e ∷ es) = (some (ok e), es)

-- What a receive of Session.Status finds: a status, the end of the probe's channel, or the session's halt.
pub data Found : Type 0 where
  update : ℕ → Found
  ended : Found
  stopped : Found

-- Session.Status: its answer, and the probes that it starts.
unfoldable pub status : Bytes → List Found → List Bytes → Option (Result ℕ) × List Bytes
status peer [] probes = (none, probes)
status peer (update n ∷ rest) probes = (some (ok (n % 2 ^ 8)), probes)
status peer (ended ∷ rest) probes = status peer rest (probes ++ peer ∷ [])
status peer (stopped ∷ rest) probes = (some (err unsupported), probes)

-- What front ends and goroutines do between two locks or at a channel.
pub data Act : Type 0 where
  ask_notifier : Act
  ask_session : Bytes → Act
  end_notifier : ℕ → Act
  end_session : ℕ → Act
  ask_close : Act
  init_turn : ℕ → Act
  offered : Event → Act
  get : ℕ → Bool → Act

-- Notifier.Get of a notifier that the SDK handed out.
unfoldable pub get_event : ℕ → Bool → Sdk → Option (Result Event) × Sdk
unfolding take_event
get_event i prefer s =
    let (r, es) = take_event (s.notifiers.halted i) prefer s.events in
    if ltb i s.notifiers.made then (r, record s { events = es }) else (none, s)

module _ (decode_peer : Bytes → Option Bytes) where
  unfoldable pub act : Act → Sdk → Sdk
  unfolding get_notifier open_decoded end_handle close_sdk init_round offer get_event
  act ask_notifier s = get_notifier s
  act (ask_session name) s = (open_decoded (decode_peer name) s).1
  act (end_notifier i) s = record s { notifiers = end_handle i s.notifiers }
  act (end_session i) s = record s { sessions = end_handle i s.sessions }
  act ask_close s = close_sdk s
  act (init_turn n) s = init_round n s
  act (offered e) s = offer e s
  act (get i prefer) s = (get_event i prefer s).1

  unfoldable pub acts : List Act → Sdk → Sdk
  unfolding act
  acts [] s = s
  acts (a ∷ as') s = acts as' (act a s)
