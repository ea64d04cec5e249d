-- ===== src/Text.antt =====
-- internal/common/protocol/text/types.go: the four actions of the text protocol and their payloads.
-- Strings are lists of bytes; `none` is the panic of an index or a slice out of range.
pub mod RoundTrip
use chat_libp2p.Common.{
  ℕ, Bool, true, false, Option, none, some, List, [], ◌∷◌, ◌++◌, ◌>>=◌, ltb, ◌==◌, if◌then◌else◌,
  get_elem?, Bytes, IsU64, put_be, slice, uint_be,
}
use chat_libp2p.Payload.{type_request, type_response, bool_byte, decode_id, decode_ok, by_type}
use chat_libp2p.Frame.{flag_meta, flag_data, new_frame, encode}

abbrev pub flag_sync_text : ℕ
flag_sync_text = 0

abbrev pub flag_existence : ℕ
flag_existence = 1

pub data Action : Type 0 where
  req_sync_text : (id ttl : ℕ) (content : Bytes) → Action
  resp_sync_text : (id : ℕ) (ok : Bool) → Action
  req_existence : (id : ℕ) → Action
  resp_existence : (id : ℕ) (exist : Bool) → Action

-- ID()
unfoldable pub action_id : Action → ℕ
action_id (req_sync_text id ttl content) = id
action_id (resp_sync_text id ok) = id
action_id (req_existence id) = id
action_id (resp_existence id exist) = id

-- The types that have an OK() method, which makes them responses, with what it returns.
unfoldable pub response_ok : Action → Option Bool
response_ok (req_sync_text id ttl content) = none
response_ok (resp_sync_text id ok) = some ok
response_ok (req_existence id) = none
response_ok (resp_existence id exist) = some exist

-- The payload that FrameBytes builds.
unfoldable pub payload_bytes : Action → Bytes
payload_bytes (req_sync_text id ttl content) =
    flag_sync_text
    ∷ type_request
    ∷ (put_be 8 id ++ (if ltb 0 ttl then 1 ∷ (put_be 8 ttl ++ content) else 0 ∷ content))
payload_bytes (resp_sync_text id ok) =
    flag_sync_text ∷ type_response ∷ (put_be 8 id ++ bool_byte ok ∷ [])
payload_bytes (req_existence id) = flag_existence ∷ type_request ∷ put_be 8 id
payload_bytes (resp_existence id exist) =
    flag_existence ∷ type_response ∷ (put_be 8 id ++ bool_byte exist ∷ [])

unfoldable pub frame_flag : Action → ℕ
frame_flag (req_sync_text id ttl content) = flag_data
frame_flag _ = flag_meta

-- FrameBytes()
unfoldable pub frame_bytes : Action → Bytes
frame_bytes a = encode (new_frame (frame_flag a) (payload_bytes a))

unfoldable pub decode_req_sync_text : Bytes → Option Action
decode_req_sync_text payload = do
  id ← decode_id payload
  b ← get_elem? payload 10
  if b == 0 then (do content ← slice 11 payload; some (req_sync_text id 0 content)) else (do
    tail ← slice 11 payload
    ttl ← uint_be 8 tail
    content ← slice 19 payload
    some (req_sync_text id ttl content))

unfoldable pub decode_resp_sync_text : Bytes → Option Action
decode_resp_sync_text payload = do
  id ← decode_id payload
  ok ← decode_ok payload
  some (resp_sync_text id ok)

unfoldable pub decode_req_existence : Bytes → Option Action
decode_req_existence payload = do id ← decode_id payload; some (req_existence id)

unfoldable pub decode_resp_existence : Bytes → Option Action
decode_resp_existence payload = do
  id ← decode_id payload
  exist ← decode_ok payload
  some (resp_existence id exist)

unfoldable pub parse : Bytes → Option (Option Action)
parse payload = do
  flag ← get_elem? payload 0
  if flag == flag_sync_text
      then by_type payload (decode_req_sync_text payload) (decode_resp_sync_text payload)
      else if flag == flag_existence
      then by_type payload (decode_req_existence payload) (decode_resp_existence payload)
      else some none

-- The fields are uint64.
abbrev pub InRange : Action → Type 0
InRange (req_sync_text id ttl content) = IsU64 id × IsU64 ttl
InRange (resp_sync_text id ok) = IsU64 id
InRange (req_existence id) = IsU64 id
InRange (resp_existence id exist) = IsU64 id
