-- ===== src/Frame/RoundTrip.antt =====
-- `decode` after `encode`.
use chat_libp2p.Common.{
  mod_small, ℕ, ◌^◌, ◌<◌, ◌≤◌, ◌≡◌, refl, arith, some, ◌∷◌, ◌++◌, put_be, ◌∙◌, slice, Bytes, length,
  uint_be-put_be, length-put_be, slice_exact, make_copy-append, le→leb,
}
use chat_libp2p.Frame.{Frame, IsFrame, new_frame, head_byte, header, encode, decode, decode_sized}
use chat_libp2p.Frame.Sizes.{head_byte_flag, head_byte_size, IsCode, Form, short, long, header-Form}
use mathlib.Core.List.{append_assoc}

-- A header with a size of `width` bytes is read back, whatever follows the payload.
decode_sized_lem :
    (alloc flag width b : ℕ) (payload rest : Bytes)
    → length payload < 256 ^ width
    → length payload ≤ alloc
    → decode_sized alloc flag width (b ∷ (put_be width (length payload) ++ (payload ++ rest)))
      ≡ some (new_frame flag payload)
unfolding decode_sized slice
decode_sized_lem alloc flag width b payload rest fits room = rw (
  uint_be-put_be width (length payload) (payload ++ rest) fits,
  slice_exact width (put_be width (length payload)) (payload ++ rest) (length-put_be width _),
  le→leb (length payload) alloc room,
  make_copy-append (length payload) payload rest refl,
)

-- A payload of at most fifteen bytes has its size in the first byte.
decode_short :
    (alloc flag : ℕ) (payload rest : Bytes)
    → flag < 8
    → length payload ≤ alloc
    → length payload ≤ 0x0f
    → decode alloc (head_byte flag (length payload) ∷ (payload ++ rest))
      ≡ some (new_frame flag payload)
unfolding decode
decode_short alloc flag payload rest hf room hs = ground (
  arith,
  head_byte_flag flag (length payload),
  head_byte_size flag (length payload),
  make_copy-append (length payload) payload rest refl,
)

decode_long :
    (alloc flag c width : ℕ) (bs : Bytes)
    → flag < 8
    → IsCode c width
    → decode alloc (head_byte flag c ∷ bs) ≡ decode_sized alloc flag width (head_byte flag c ∷ bs)
unfolding decode
decode_long alloc flag c width bs hf hc =
    ground (arith, head_byte_flag flag c, head_byte_size flag c)

decode-Form :
    (alloc flag : ℕ) (payload rest : Bytes)
    → flag < 8
    → length payload ≤ alloc
    → Form flag (length payload)
    → decode alloc ((header flag (length payload) ++ payload) ++ rest)
      ≡ some (new_frame flag payload)
decode-Form alloc flag payload rest hf room (short small e) =
    rw e (decode_short alloc flag payload rest hf room small)
decode-Form alloc flag payload rest hf room (long c width hc fits e) =
    rw (e, append_assoc)
      (decode_long alloc flag c width _ hf hc
        ∙ decode_sized_lem alloc flag width (head_byte flag c) payload rest fits room)

-- `Decode` gives back every frame that `Encode` wrote, also with more bytes behind it, if the flag
-- fits its three bits and the runtime can make the payload.
pub decode-encode :
    (alloc : ℕ) (f : Frame) (rest : Bytes)
    → IsFrame alloc f
    → decode alloc (encode f ++ rest) ≡ some f
unfolding encode
decode-encode alloc f rest h = rw (mod_small (length f.payload) (2 ^ 64) h.size_fits) (
    decode-Form alloc f.flag f.payload rest h.flag_fits h.payload_fits
      (header-Form f.flag (length f.payload) h.size_fits))
