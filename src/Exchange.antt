-- ===== src/Exchange.antt =====
-- internal/common/protocol/text/text.go and image/image.go, which are one program over two sets of
-- actions: requests that wait for the response with their identifier, and a bounded queue of what
-- other peers ask for.
pub mod Pending
pub mod Changes
pub mod Waiting
pub mod Collisions
use chat_libp2p.Common.{
  ℕ, zero, suc, ◌+◌, Bool, true, false, Option, none, some, List, [], ◌∷◌, ◌++◌, ltb, if◌then◌else◌,
  length, Bytes, lookup, insert, remove, nat_eq, ◌>>=◌,
}
use chat_libp2p.Text as Txt
use chat_libp2p.Image as Img

-- What text.go and image.go use of their types.go.
pub record Protocol : Type 1 where
  pub Action : Type 0
  pub action_id : Action → ℕ
  pub response_ok : Action → Option Bool
  pub parse : Bytes → Option (Option Action)
  pub frame_bytes : Action → Bytes

abbrev pub text_protocol : Protocol
text_protocol = record {
  Action = Txt.Action;
  action_id = Txt.action_id;
  response_ok = Txt.response_ok;
  parse = Txt.parse;
  frame_bytes = Txt.frame_bytes;
}

abbrev pub image_protocol : (ℕ → Bool) → Protocol
image_protocol is_sep = record {
  Action = Img.Action;
  action_id = Img.action_id;
  response_ok = Img.response_ok;
  parse = Img.parse is_sep;
  frame_bytes = Img.frame_bytes;
}

-- TextRecvBufSize, ImageRecvBufSize
abbrev pub recv_buf_size : ℕ
recv_buf_size = 1000

-- `result` maps an identifier to a channel; `channels` holds each channel's buffer, of one place.
pub record State (A : Type 0) : Type 0 where
  pub result : List (ℕ × ℕ)
  pub channels : List (ℕ × A)
  pub next_channel : ℕ
  pub receiver : List (Bytes × A)

module _ {A : Type 0} where
  abbrev pub new_state : State A
  new_state = record { result = []; channels = []; next_channel = 0; receiver = [] }

  -- `select { case result <- action: default: }`
  unfoldable pub offer : State A → ℕ → A → State A
  offer s ch a = elim (lookup ch s.channels) [
    | none ↦ record s { channels = insert ch a s.channels }
    | some b ↦ s
  ]

  -- `select { case receiver <- …: default: }`
  unfoldable pub enqueue : State A → Bytes → A → State A
  enqueue s peer a =
      if ltb (length s.receiver) recv_buf_size
      then record s { receiver = s.receiver ++ (peer, a) ∷ [] }
      else s

  unfoldable pub deliver : State A → ℕ → A → State A
  unfolding offer
  deliver s txid a = elim (lookup txid s.result) [ none ↦ s | some ch ↦ offer s ch a ]

  -- The first lines of Request: a new channel under the request's identifier.
  unfoldable pub register : State A → ℕ → State A × ℕ
  register s txid = (
    record s { result = insert txid s.next_channel s.result; next_channel = s.next_channel + 1 },
    s.next_channel,
  )

  -- Its deferred function.
  unfoldable pub unregister : State A → ℕ → State A
  unregister s txid = record s { result = remove txid s.result }

  -- One read of the receiver by `receive` in service/message.go.
  unfoldable pub take_request : State A → Option ((Bytes × A) × State A)
  take_request s = elim s.receiver [ [] ↦ none | p ∷ rest ↦ some (p, record s { receiver = rest }) ]

pub data Error : Type 0 where
  send_error ctx_error : Error

pub data Reply (A : Type 0) : Type 0 where
  answered : A → Reply A
  err : Error → Reply A

module _ (p : Protocol) where
  -- The interfaces of action.go overlap: a response is a request too, and is tried first here.
  unfoldable pub handle_action : State p.Action → Bytes → p.Action → State p.Action
  unfolding deliver enqueue
  handle_action s peer a = elim (p.response_ok a) [
    | some ok ↦ deliver s (p.action_id a) a
    | none ↦ enqueue s peer a
  ]

  unfoldable pub handle_meta : Bytes → Bytes → State p.Action → Option (State p.Action)
  unfolding handle_action
  handle_meta peer payload s = elim (p.parse payload) [
    | none ↦ none
    | some none ↦ some s
    | some (some a) ↦ some (handle_action s peer a)
  ]

  -- Every action is a request here, responses too.
  unfoldable pub handle_data : Bytes → Bytes → State p.Action → Option (State p.Action)
  unfolding enqueue
  handle_data peer payload s = elim (p.parse payload) [
    | none ↦ none
    | some none ↦ some s
    | some (some a) ↦ some (enqueue s peer a)
  ]

  -- What may happen while a request waits: frames arrive, and other goroutines make requests.
  pub data Event : Type 0 where
    meta_frame data_frame : Bytes → Bytes → Event
    begins ends : ℕ → Event
    receives : Event

  unfoldable pub event : Event → State p.Action → Option (State p.Action)
  unfolding handle_meta handle_data register unregister take_request
  event (meta_frame peer payload) s = handle_meta peer payload s
  event (data_frame peer payload) s = handle_data peer payload s
  event (begins txid) s = some (register s txid).0
  event (ends txid) s = some (unregister s txid)
  event receives s = elim (take_request s) [ none ↦ some s | some (q, t) ↦ some t ]

  unfoldable pub events : List Event → State p.Action → Option (State p.Action)
  unfolding event
  events [] s = some s
  events (e ∷ es) s = elim (event e s) [ none ↦ none | some t ↦ events es t ]

  -- The last `select`: the buffered response, or the end of the context. When both are ready Go takes
  -- either, as `late` says; with neither it waits on, which `meanwhile` covers.
  unfoldable pub await : State p.Action → ℕ → Bool → Reply p.Action
  await s ch late = elim (lookup ch s.channels) [
    | none ↦ err ctx_error
    | some a ↦ if late then err ctx_error else answered a
  ]

  -- Request(ctx, peerID, req) with identifier `txid`: `sent` is whether Send succeeds, and `meanwhile`
  -- what happens until the select is taken. `none` is a panic.
  unfoldable pub request :
      (sent late : Bool) (meanwhile : List Event) (s : State p.Action) (txid : ℕ)
      → Option (State p.Action × Reply p.Action)
  unfolding register unregister events await
  request sent late meanwhile s txid =
      let (s', ch) = register s txid in
      if sent
      then (do t ← events meanwhile s'; some (unregister t txid, await t ch late))
      else some (unregister s' txid, err send_error)
