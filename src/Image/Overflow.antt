-- ===== src/Image/Overflow.antt =====
-- The byte that holds the length of a subdirectory.
use chat_libp2p.Common.{
  ℕ, ◌+◌, ◌%◌, ◌≤◌, ◌<◌, ◌≡◌, arith, Bool, none, some, get_elem?, Bytes, Option-cases, inl, inr,
  lt→leb,
}
use chat_libp2p.Payload.{by_type, decode_id}
use chat_libp2p.Image.{parse, decode_req_sync_bytes, slice_range}

wrapped :
    (b : ℕ) (payload : Bytes) → 245 ≤ b → b < 256 → slice_range 11 ((b + 11) % 256) payload ≡ none
unfolding slice_range
wrapped b payload lo hi = rw (lt→leb 11 ((b + 11) % 256) (omega arith))

-- A byte request whose length byte is 245 or more makes `parse` panic, whatever else it holds: the
-- byte wraps, and the slice ends before it begins.
pub parse_length_byte :
    (is_sep : ℕ → Bool) (payload : Bytes) (b : ℕ)
    → get_elem? payload 0 ≡ some 1
    → get_elem? payload 1 ≡ some 0
    → get_elem? payload 10 ≡ some b
    → 245 ≤ b
    → b < 256
    → parse is_sep payload ≡ none
unfolding parse by_type decode_req_sync_bytes
parse_length_byte is_sep payload b flag typ size lo hi = elim (Option-cases (decode_id payload)) [
  | inl e ↦ rw (flag, typ, e)
  | inr (id, e) ↦ rw (flag, typ, e, size, wrapped b payload lo hi)
]
