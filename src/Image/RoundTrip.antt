-- ===== src/Image/RoundTrip.antt =====
-- `parse` gives back the action whose payload FrameBytes built.
use chat_libp2p.Common.{
  ℕ, ◌+◌, ◌-◌, ◌%◌, ◌<◌, ◌≡◌, refl, sym, ap, arith, Bool, some, [], ◌∷◌, ◌++◌, le→leb,
  length-append, Bytes, IsU64, put_be, slice, slice-append, slice_exact, length, length-put_be, ◌∙◌,
  take-append, drop-append,
}
use mathlib.Core.List.{append-nil, append_assoc}
use chat_libp2p.Payload.{
  by_type, decode_id, bool_byte, decode_id_lem, tenth, slice_eleven, decode_ok_lem,
}
use chat_libp2p.Image.{
  Action, req_sync_hash, resp_sync_hash, req_sync_bytes, resp_sync_bytes, req_existence,
  resp_existence, payload_bytes, parse, InRange, decode_req_sync_hash, decode_resp_sync_hash,
  decode_req_sync_bytes, decode_resp_sync_bytes, decode_req_existence, decode_resp_existence,
  slice_range, new_req_sync_hash, trim-ext,
}

resp_hash_lem :
    (id : ℕ) (ok : Bool) (subdir : Bytes)
    → IsU64 id
    → decode_resp_sync_hash (payload_bytes (resp_sync_hash id ok subdir))
      ≡ some (resp_sync_hash id ok subdir)
unfolding decode_resp_sync_hash payload_bytes
resp_hash_lem id ok subdir h =
    simp (decode_id_lem 0 1 id (bool_byte ok ∷ subdir) h, decode_ok_lem, slice_eleven)

resp_bytes_lem :
    (id : ℕ) (ok : Bool)
    → IsU64 id
    → decode_resp_sync_bytes (payload_bytes (resp_sync_bytes id ok)) ≡ some (resp_sync_bytes id ok)
unfolding decode_resp_sync_bytes payload_bytes
resp_bytes_lem id ok h = simp (decode_id_lem 1 1 id (bool_byte ok ∷ []) h, decode_ok_lem)

resp_existence_lem :
    (id : ℕ) (ok : Bool)
    → IsU64 id
    → decode_resp_existence (payload_bytes (resp_existence id ok)) ≡ some (resp_existence id ok)
unfolding decode_resp_existence payload_bytes
resp_existence_lem id ok h = simp (decode_id_lem 2 1 id (bool_byte ok ∷ []) h, decode_ok_lem)

existence_lem :
    (id : ℕ)
    → IsU64 id
    → decode_req_existence (payload_bytes (req_existence id)) ≡ some (req_existence id)
unfolding decode_req_existence payload_bytes
existence_lem id h =
    let e : decode_id (2 ∷ 0 ∷ put_be 8 id) ≡ some id =
      rw append-nil at (decode_id_lem 2 0 id [] h) in
    rw e

-- A file name is split again as it was split when the request was built.
hash_lem :
    (is_sep : ℕ → Bool) (id : ℕ) (filebase : Bytes)
    → IsU64 id
    → decode_req_sync_hash is_sep (payload_bytes (new_req_sync_hash is_sep id filebase))
      ≡ some (new_req_sync_hash is_sep id filebase)
unfolding decode_req_sync_hash payload_bytes new_req_sync_hash slice
hash_lem is_sep id filebase h = rw (
  trim-ext is_sep filebase,
  decode_id_lem 0 0 id filebase h,
  slice_exact 8 (put_be 8 id) filebase (length-put_be 8 id),
)

-- The eleven bytes in front of a subdirectory.
abbrev front : ℕ → ℕ → Bytes
front id n = 1 ∷ 0 ∷ (put_be 8 id ++ n ∷ [])

front_lem : (id n : ℕ) (rest : Bytes) → 1 ∷ 0 ∷ (put_be 8 id ++ n ∷ rest) ≡ front id n ++ rest
front_lem id n rest = ap (λ t. 1 ∷ 0 ∷ t) (sym (append_assoc (put_be 8 id) (n ∷ []) rest))

length-front : (id n : ℕ) → length (front id n) ≡ 11
length-front id n = omega (arith, length-append (put_be 8 id) (n ∷ []), length-put_be 8 id)

slice_range_lem :
    (low high : ℕ) (before inside after : Bytes)
    → length before ≡ low
    → low + length inside ≡ high
    → slice_range low high (before ++ (inside ++ after)) ≡ some inside
unfolding slice_range
slice_range_lem low high before inside after hl hh = rw (
  le→leb low high (omega arith),
  le→leb high (length (before ++ (inside ++ after)))
      (omega (arith, length-append before (inside ++ after), length-append inside after)),
  drop-append low before (inside ++ after) hl,
  take-append (high - low) inside after (omega arith),
)

module _ (id n : ℕ) (subdir payload : Bytes) (fits : length subdir ≡ n) where
  range_lem :
      slice_range 11 (11 + n) (1 ∷ 0 ∷ (put_be 8 id ++ n ∷ (subdir ++ payload))) ≡ some subdir
  range_lem =
      rw (front_lem id n (subdir ++ payload))
        (slice_range_lem 11 (11 + n) (front id n) subdir payload (length-front id n) (omega arith))

  rest_lem : slice (11 + n) (1 ∷ 0 ∷ (put_be 8 id ++ n ∷ (subdir ++ payload))) ≡ some payload
  rest_lem = rw (front_lem id n (subdir ++ payload)) (
      slice-append 11 n (front id n) (subdir ++ payload) (length-front id n)
      ∙ slice_exact n subdir payload fits)

bytes_lem :
    (id : ℕ) (subdir payload : Bytes)
    → IsU64 id
    → length subdir < 245
    → decode_req_sync_bytes (payload_bytes (req_sync_bytes id subdir payload))
      ≡ some (req_sync_bytes id subdir payload)
unfolding decode_req_sync_bytes payload_bytes
bytes_lem id subdir payload h short =
    let n = length subdir in
    let byte : n % 256 ≡ n = omega arith in
    let s : (n + 11) % 256 ≡ 11 + n = omega arith in
    rw (
      byte,
      decode_id_lem 1 0 id (n ∷ (subdir ++ payload)) h,
      tenth 1 0 id (subdir ++ payload) n,
      s,
      range_lem id n subdir payload refl,
      rest_lem id n subdir payload refl,
    )

-- `parse` returns, for each of the six actions, just the action that FrameBytes wrote into the
-- payload: the identifier, the file name's parts, the subdirectory, the image and the answer. A
-- subdirectory has at most 244 bytes, and a hash request is one that NewReqSyncHash splits.
pub parse-image_payload_bytes :
    (is_sep : ℕ → Bool) (a : Action)
    → InRange is_sep a
    → parse is_sep (payload_bytes a) ≡ some (some a)
unfolding parse by_type payload_bytes
parse-image_payload_bytes is_sep (req_sync_hash id e hash) (fits, (filebase, made)) =
    rw (ap payload_bytes made, hash_lem is_sep id filebase fits, made)
parse-image_payload_bytes is_sep (resp_sync_hash id ok subdir) h = rw (resp_hash_lem id ok subdir h)
parse-image_payload_bytes is_sep (req_sync_bytes id subdir payload) h =
    rw (bytes_lem id subdir payload h.0 h.1)
parse-image_payload_bytes is_sep (resp_sync_bytes id ok) h = rw (resp_bytes_lem id ok h)
parse-image_payload_bytes is_sep (req_existence id) h = rw (existence_lem id h)
parse-image_payload_bytes is_sep (resp_existence id exist) h = rw (resp_existence_lem id exist h)
