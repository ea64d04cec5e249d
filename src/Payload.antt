-- ===== src/Payload.antt =====
-- What internal/common/protocol/text/types.go and image/types.go share: the two type bytes, and the
-- fields that stand at the same place in every payload. `none` is the panic of an index or a slice
-- out of range.
use chat_libp2p.Common.{
  ℕ, ◌≡◌, Bool, true, false, Option, none, some, ◌∷◌, ◌++◌, ◌>>=◌, ◌==◌, if◌then◌else◌, get_elem?,
  Bytes, IsU64, put_be, slice, uint_be, uint_be-put_be, slice-append, get_elem?-append,
  length-put_be,
}

abbrev pub type_request : ℕ
type_request = 0

abbrev pub type_response : ℕ
type_response = 1

-- `payload[10] = 1` if the flag is set
abbrev pub bool_byte : Bool → ℕ
bool_byte true = 1
bool_byte false = 0

-- `binary.BigEndian.Uint64(payload[2:])`
unfoldable pub decode_id : Bytes → Option ℕ
decode_id payload = do tail ← slice 2 payload; uint_be 8 tail

-- `payload[10] == 1`, over a field that is false before
unfoldable pub decode_ok : Bytes → Option Bool
decode_ok payload = do b ← get_elem? payload 10; some (b == 1)

-- A decoded action in the interface variable, which is nil (`none` inside) if no case fits.
abbrev pub filled {ℓ} : {A : Type ℓ} → Option A → Option (Option A)
filled m = m >>= λ a. some (some a)

-- The test of `payload[1]`
unfoldable pub by_type {ℓ} : {A : Type ℓ} → Bytes → Option A → Option A → Option (Option A)
by_type payload request response = do
  typ ← get_elem? payload 1
  if typ == type_request
      then filled request
      else if typ == type_response
      then filled response
      else some none

module _ (flag typ id : ℕ) (rest : Bytes) where
  pub decode_id_lem : IsU64 id → decode_id (flag ∷ typ ∷ (put_be 8 id ++ rest)) ≡ some id
  unfolding decode_id slice
  decode_id_lem fits = uint_be-put_be 8 id rest fits

  pub tenth : (b : ℕ) → get_elem? (flag ∷ typ ∷ (put_be 8 id ++ b ∷ rest)) 10 ≡ some b
  tenth b = get_elem?-append 8 0 (put_be 8 id) (b ∷ rest) (length-put_be 8 id)

  -- `payload[11:]`
  pub slice_eleven : (b : ℕ) → slice 11 (flag ∷ typ ∷ (put_be 8 id ++ b ∷ rest)) ≡ some rest
  unfolding slice
  slice_eleven b = slice-append 8 1 (put_be 8 id) (b ∷ rest) (length-put_be 8 id)

  pub decode_ok_lem :
      (ok : Bool) → decode_ok (flag ∷ typ ∷ (put_be 8 id ++ bool_byte ok ∷ rest)) ≡ some ok
  unfolding decode_ok
  decode_ok_lem true = simp tenth
  decode_ok_lem false = simp tenth
