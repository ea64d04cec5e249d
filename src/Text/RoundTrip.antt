-- ===== src/Text/RoundTrip.antt =====
-- `parse` gives back the action whose payload FrameBytes built.
use chat_libp2p.Common.{
  ℕ, ◌≡◌, arith, Bool, some, [], ◌∷◌, ◌++◌, ltb, Bytes, IsU64, put_be, slice, uint_be-put_be,
  slice-append, slice_exact, length-put_be, ◌∙◌, inl, inr, Bool-cases,
}
use mathlib.Core.List.{append-nil}
use chat_libp2p.Payload.{
  by_type, decode_id, bool_byte, decode_id_lem, tenth, slice_eleven, decode_ok_lem,
}
use chat_libp2p.Text.{
  Action, req_sync_text, resp_sync_text, req_existence, resp_existence, payload_bytes, parse,
  InRange, decode_req_sync_text, decode_resp_sync_text, decode_req_existence, decode_resp_existence,
}

-- `payload[19:]`, behind an eight-byte lifetime
nineteen :
    (flag typ id b ttl : ℕ) (rest : Bytes)
    → slice 19 (flag ∷ typ ∷ (put_be 8 id ++ b ∷ (put_be 8 ttl ++ rest))) ≡ some rest
unfolding slice
nineteen flag typ id b ttl rest =
    slice-append 8 9 (put_be 8 id) (b ∷ (put_be 8 ttl ++ rest)) (length-put_be 8 id)
    ∙ slice_exact 8 (put_be 8 ttl) rest (length-put_be 8 ttl)

resp_lem :
    (id : ℕ) (ok : Bool)
    → IsU64 id
    → decode_resp_sync_text (payload_bytes (resp_sync_text id ok)) ≡ some (resp_sync_text id ok)
unfolding decode_resp_sync_text payload_bytes
resp_lem id ok h = simp (decode_id_lem 0 1 id (bool_byte ok ∷ []) h, decode_ok_lem)

resp_existence_lem :
    (id : ℕ) (ok : Bool)
    → IsU64 id
    → decode_resp_existence (payload_bytes (resp_existence id ok)) ≡ some (resp_existence id ok)
unfolding decode_resp_existence payload_bytes
resp_existence_lem id ok h = simp (decode_id_lem 1 1 id (bool_byte ok ∷ []) h, decode_ok_lem)

existence_lem :
    (id : ℕ)
    → IsU64 id
    → decode_req_existence (payload_bytes (req_existence id)) ≡ some (req_existence id)
unfolding decode_req_existence payload_bytes
existence_lem id h =
    let e : decode_id (1 ∷ 0 ∷ put_be 8 id) ≡ some id =
      rw append-nil at (decode_id_lem 1 0 id [] h) in
    rw e

sync_lem :
    (id ttl : ℕ) (content : Bytes)
    → IsU64 id
    → IsU64 ttl
    → decode_req_sync_text (payload_bytes (req_sync_text id ttl content))
      ≡ some (req_sync_text id ttl content)
unfolding decode_req_sync_text payload_bytes
sync_lem id ttl content h ht = elim (Bool-cases (ltb 0 ttl)) [
  | inl later ↦ rw (
    later,
    decode_id_lem 0 0 id (1 ∷ (put_be 8 ttl ++ content)) h,
    tenth 0 0 id (put_be 8 ttl ++ content) 1,
    slice_eleven 0 0 id (put_be 8 ttl ++ content) 1,
    uint_be-put_be 8 ttl content ht,
    nineteen 0 0 id 1 ttl content,
  )
  | inr never ↦
      rw
        (
          never,
          decode_id_lem 0 0 id (0 ∷ content) h,
          tenth 0 0 id content 0,
          slice_eleven 0 0 id content 0,
        )
        (ground arith)
]

-- `parse` returns, for each of the four actions, just the action that FrameBytes wrote into the
-- payload: the identifier, the time to live, the content and the answer.
pub parse-payload_bytes : (a : Action) → InRange a → parse (payload_bytes a) ≡ some (some a)
unfolding parse by_type payload_bytes
parse-payload_bytes (req_sync_text id ttl content) h = rw (sync_lem id ttl content h.0 h.1)
parse-payload_bytes (resp_sync_text id ok) h = rw (resp_lem id ok h)
parse-payload_bytes (req_existence id) h = rw (existence_lem id h)
parse-payload_bytes (resp_existence id exist) h = rw (resp_existence_lem id exist h)
