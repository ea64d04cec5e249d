-- ===== src/Probe.antt =====
-- internal/client/service/probe.go, with Send of internal/common/protocol/heartbeat/heartbeat.go: the
-- status of one peer, in a channel of one place, and the calls of Run and Stop.
pub mod Latest
pub mod Runs
use chat_libp2p.Common.{
  ℕ, Bool, true, false, Option, none, some, List, [], ◌∷◌, Bytes, if◌then◌else◌,
}
use chat_libp2p.Frame.{flag_ack, new_frame, encode}
use chat_libp2p.Streams.{Stream, Manager}
use chat_libp2p.Streams.Sending.{
  Try, Sent, sent_on, no_stream, write_failed, nil_stream, send_frame,
}

-- The frame of a heartbeat.
unfoldable pub heartbeat_bytes : Bytes
heartbeat_bytes = encode (new_frame flag_ack [])

-- What a heartbeat came to.
pub data Beat : Type 0 where
  alive : (direct : Bool) → Beat
  dead panicked : Beat

unfoldable pub beat_of : Sent → Beat
beat_of (sent_on x) = alive x.direct
beat_of no_stream = dead
beat_of write_failed = dead
beat_of nil_stream = panicked

-- Send of the heartbeat protocol.
unfoldable pub heartbeat_send : Try → (Manager → Manager) → Try → Manager → Bytes → Manager × Beat
unfolding send_frame beat_of
heartbeat_send first between second m peer =
    let (u, s) = send_frame first between second m peer in (u, beat_of s)

pub data Status : Type 0 where
  off relay direct : Status

unfoldable pub same_status : Status → Status → Bool
same_status off off = true
same_status relay relay = true
same_status direct direct = true
same_status _ _ = false

-- The variable `status` and the channel's one place.
pub record Probing : Type 0 where
  pub status : Status
  pub place : Option Status

-- `status := ProbeStatusOff; ch <- status`
abbrev pub start : Probing
start = record { status = off; place = some off }

-- `update`: into the place if it is free, and else the old value is taken out first.
unfoldable pub update_status : Probing → Status → Probing
unfolding same_status
update_status p stat =
    if same_status p.status stat then p else record { status = stat; place = some stat }

unfoldable pub status_of : Beat → Option Status
status_of (alive true) = some direct
status_of (alive false) = some relay
status_of dead = some off
status_of panicked = none

-- One round of the loop; a panic ends the program.
unfoldable pub probe_round : Probing → Beat → Option Probing
unfolding update_status status_of
probe_round p b = elim (status_of b) [ none ↦ none | some stat ↦ some (update_status p stat) ]

-- The consumer takes what is in the place, if it holds something.
unfoldable pub take_status : Probing → Option (Status × Probing)
take_status p = elim p.place [ none ↦ none | some s ↦ some (s, record p { place = none }) ]

-- What may happen, in any order.
pub data Turn : Type 0 where
  beats : Beat → Turn
  takes : Turn

-- The status that the consumer took last is kept beside the state.
unfoldable pub turn : Turn → Probing × Option Status → Option (Probing × Option Status)
unfolding probe_round take_status
turn (beats b) (p, seen) = elim (probe_round p b) [ none ↦ none | some q ↦ some (q, seen) ]
turn takes (p, seen) = elim (take_status p) [
  | none ↦ some (p, seen)
  | some (s, q) ↦ some (q, some s)
]

unfoldable pub turns : List Turn → Probing × Option Status → Option (Probing × Option Status)
unfolding turn
turns [] r = some r
turns (t ∷ ts) r = elim (turn t r) [ none ↦ none | some r' ↦ turns ts r' ]
