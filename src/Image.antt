-- ===== src/Image.antt =====
-- internal/common/protocol/image/types.go: the six actions of the image protocol and their payloads.
-- Strings are lists of bytes; `none` is the panic of an index or a slice out of range. `is_sep` is
-- os.IsPathSeparator of the system that the program runs on.
mod FileNames
pub mod RoundTrip
pub mod Overflow
pub use FileNames.{ext-suffix, trim-ext}
unfoldable pub use FileNames.{ext, trim_suffix}
use chat_libp2p.Common.{
  ℕ, ◌+◌, ◌-◌, ◌%◌, ◌≡◌, ◌<◌, Bool, Option, none, some, List, [], ◌∷◌, ◌++◌, ◌>>=◌, ◌==◌, leb,
  if◌then◌else◌, get_elem?, length, take, drop, Bytes, IsU64, put_be, slice, uint_be, ◌&&◌,
}
use chat_libp2p.Payload.{type_request, type_response, bool_byte, decode_id, decode_ok, by_type}
use chat_libp2p.Frame.{flag_meta, flag_data, new_frame, encode}

abbrev pub flag_sync_hash : ℕ
flag_sync_hash = 0

abbrev pub flag_sync_bytes : ℕ
flag_sync_bytes = 1

abbrev pub flag_existence : ℕ
flag_existence = 2

pub data Action : Type 0 where
  req_sync_hash : (id : ℕ) (ext hash : Bytes) → Action
  resp_sync_hash : (id : ℕ) (ok : Bool) (subdir : Bytes) → Action
  req_sync_bytes : (id : ℕ) (subdir payload : Bytes) → Action
  resp_sync_bytes : (id : ℕ) (ok : Bool) → Action
  req_existence : (id : ℕ) → Action
  resp_existence : (id : ℕ) (exist : Bool) → Action

-- NewReqSyncHash(id, filebase)
unfoldable pub new_req_sync_hash : (ℕ → Bool) → ℕ → Bytes → Action
new_req_sync_hash is_sep id filebase =
    req_sync_hash id (ext is_sep filebase) (trim_suffix filebase (ext is_sep filebase))

-- ID()
unfoldable pub action_id : Action → ℕ
action_id (req_sync_hash id ext hash) = id
action_id (resp_sync_hash id ok subdir) = id
action_id (req_sync_bytes id subdir payload) = id
action_id (resp_sync_bytes id ok) = id
action_id (req_existence id) = id
action_id (resp_existence id exist) = id

-- The types that have an OK() method, which makes them responses, with what it returns.
unfoldable pub response_ok : Action → Option Bool
response_ok (resp_sync_hash id ok subdir) = some ok
response_ok (resp_sync_bytes id ok) = some ok
response_ok (resp_existence id exist) = some exist
response_ok _ = none

-- Filebase()
abbrev pub filebase_of : Bytes → Bytes → Bytes
filebase_of ext hash = hash ++ ext

-- The payload that FrameBytes builds.
unfoldable pub payload_bytes : Action → Bytes
payload_bytes (req_sync_hash id ext hash) =
    flag_sync_hash ∷ type_request ∷ (put_be 8 id ++ (hash ++ ext))
payload_bytes (resp_sync_hash id ok subdir) =
    flag_sync_hash ∷ type_response ∷ (put_be 8 id ++ bool_byte ok ∷ subdir)
payload_bytes (req_sync_bytes id subdir payload) =
    flag_sync_bytes ∷ type_request ∷ (put_be 8 id ++ length subdir % 256 ∷ (subdir ++ payload))
payload_bytes (resp_sync_bytes id ok) =
    flag_sync_bytes ∷ type_response ∷ (put_be 8 id ++ bool_byte ok ∷ [])
payload_bytes (req_existence id) = flag_existence ∷ type_request ∷ put_be 8 id
payload_bytes (resp_existence id exist) =
    flag_existence ∷ type_response ∷ (put_be 8 id ++ bool_byte exist ∷ [])

unfoldable pub frame_flag : Action → ℕ
frame_flag (req_sync_bytes id subdir payload) = flag_data
frame_flag _ = flag_meta

-- FrameBytes()
unfoldable pub frame_bytes : Action → Bytes
frame_bytes a = encode (new_frame (frame_flag a) (payload_bytes a))

unfoldable pub decode_req_sync_hash : (ℕ → Bool) → Bytes → Option Action
decode_req_sync_hash is_sep payload = do
  id ← decode_id payload
  filebase ← slice 10 payload
  some (req_sync_hash id (ext is_sep filebase) (trim_suffix filebase (ext is_sep filebase)))

unfoldable pub decode_resp_sync_hash : Bytes → Option Action
decode_resp_sync_hash payload = do
  id ← decode_id payload
  ok ← decode_ok payload
  subdir ← slice 11 payload
  some (resp_sync_hash id ok subdir)

-- `payload[low:high]`; the slice's capacity is its length.
unfoldable pub slice_range : ℕ → ℕ → Bytes → Option Bytes
slice_range low high bs =
    if leb low high && leb high (length bs) then some (take (high - low) (drop low bs)) else none

-- `s := payload[10] + 11` is a byte and wraps.
unfoldable pub decode_req_sync_bytes : Bytes → Option Action
decode_req_sync_bytes payload = do
  id ← decode_id payload
  b ← get_elem? payload 10
  let s = (b + 11) % 256
  subdir ← slice_range 11 s payload
  rest ← slice s payload
  some (req_sync_bytes id subdir rest)

unfoldable pub decode_resp_sync_bytes : Bytes → Option Action
decode_resp_sync_bytes payload = do
  id ← decode_id payload
  ok ← decode_ok payload
  some (resp_sync_bytes id ok)

unfoldable pub decode_req_existence : Bytes → Option Action
decode_req_existence payload = do id ← decode_id payload; some (req_existence id)

unfoldable pub decode_resp_existence : Bytes → Option Action
decode_resp_existence payload = do
  id ← decode_id payload
  exist ← decode_ok payload
  some (resp_existence id exist)

unfoldable pub parse : (ℕ → Bool) → Bytes → Option (Option Action)
parse is_sep payload = do
  flag ← get_elem? payload 0
  if flag == flag_sync_hash
      then by_type payload (decode_req_sync_hash is_sep payload) (decode_resp_sync_hash payload)
      else if flag == flag_sync_bytes
      then by_type payload (decode_req_sync_bytes payload) (decode_resp_sync_bytes payload)
      else if flag == flag_existence
      then by_type payload (decode_req_existence payload) (decode_resp_existence payload)
      else some none

-- The actions that the program builds and the format has room for: identifiers are uint64, a hash
-- request is split from a file name, and the length of a subdirectory fits one byte with eleven more.
abbrev pub InRange : (ℕ → Bool) → Action → Type 0
InRange is_sep (req_sync_hash id e h) =
    IsU64 id × ((filebase : Bytes) × (req_sync_hash id e h ≡ new_req_sync_hash is_sep id filebase))
InRange is_sep (resp_sync_hash id ok subdir) = IsU64 id
InRange is_sep (req_sync_bytes id subdir payload) = IsU64 id × (length subdir < 245)
InRange is_sep (resp_sync_bytes id ok) = IsU64 id
InRange is_sep (req_existence id) = IsU64 id
InRange is_sep (resp_existence id exist) = IsU64 id
