-- ===== src/Reader/RoundTrip.antt =====
-- `Read` gives back what `Encode` wrote, and agrees with `Decode`.
use Prim.Native.Nat.{bit_and}
use chat_libp2p.Common.{
  ℕ, ◌/◌, ◌^◌, ◌≤◌, ◌<◌, ◌≡◌, ◌∙◌, refl, sym, arith, some, [], ◌∷◌, ◌++◌, length, take, drop, Bytes,
  length-append, le→leb, dec_lt, slice_lem, make_copy-take, take-append, drop-append, put_be,
  be_value, length-put_be, uint_be, ◌>>=◌, slice, mod_small, be_value-put_be,
}
use mathlib.Core.List.{append_assoc}
use chat_libp2p.Frame.{
  Frame, IsFrame, new_frame, header, head_byte, encode, decode, decode_sized, make_bytes,
}
use chat_libp2p.Frame.Sizes.{head_byte_flag, head_byte_size, IsCode, Form, short, long, header-Form}
use chat_libp2p.Reader.{done, read_body, read_sized, read}
use chat_libp2p.Reader.Outcomes.{
  Body, Body-cases, whole, cut, oversize, body_enough, sized_enough, sized_few,
}

body_payload :
    (alloc flag : ℕ) (old payload rest : Bytes)
    → length payload ≤ alloc
    → read_body alloc flag old (length payload) (payload ++ rest)
      ≡ (done, new_frame flag payload, rest)
body_payload alloc flag old payload rest room =
    body_enough alloc flag old (length payload) (payload ++ rest) room
      (omega (arith, length-append payload rest))
    ∙ rw (
      take-append (length payload) payload rest refl,
      drop-append (length payload) payload rest refl,
    )

sized_payload :
    (alloc flag : ℕ) (old : Bytes) (width : ℕ) (payload rest : Bytes)
    → length payload ≤ alloc
    → length payload < 256 ^ width
    → read_sized alloc flag old width (put_be width (length payload) ++ (payload ++ rest))
      ≡ (done, new_frame flag payload, rest)
sized_payload alloc flag old width payload rest room fits =
    let n = length payload in
    sized_enough alloc flag old width (put_be width n ++ (payload ++ rest))
      (omega (arith, length-append (put_be width n) (payload ++ rest), length-put_be width n))
    ∙ rw
        (
          take-append width (put_be width n) (payload ++ rest) (length-put_be width n),
          drop-append width (put_be width n) (payload ++ rest) (length-put_be width n),
          be_value-put_be width n fits,
        )
        (body_payload alloc flag old payload rest room)

module _ (alloc : ℕ) (frame : Frame) (flag : ℕ) (bs : Bytes) (fits : flag < 8) where
  pub read_coded :
      (c width : ℕ)
      → IsCode c width
      → read alloc frame (head_byte flag c ∷ bs) ≡ read_sized alloc flag frame.payload width bs
  unfolding read
  read_coded c width hc = ground (arith, head_byte_flag flag c, head_byte_size flag c)

  pub read_short :
      (n : ℕ)
      → n ≤ 0x0f
      → read alloc frame (head_byte flag n ∷ bs) ≡ read_body alloc flag frame.payload n bs
  unfolding read
  read_short n hn = ground (arith, head_byte_flag flag n, head_byte_size flag n)

read-Form :
    (alloc : ℕ) (frame : Frame) (flag : ℕ) (payload rest : Bytes)
    → flag < 8
    → length payload ≤ alloc
    → Form flag (length payload)
    → read alloc frame ((header flag (length payload) ++ payload) ++ rest)
      ≡ (done, new_frame flag payload, rest)
read-Form alloc frame flag payload rest hf room (short small e) = rw e (
    read_short alloc frame flag (payload ++ rest) hf (length payload) small
    ∙ body_payload alloc flag frame.payload payload rest room)
read-Form alloc frame flag payload rest hf room (long c width hc fits e) =
    rw (e, append_assoc)
      (read_coded alloc frame flag _ hf c width hc
        ∙ sized_payload alloc flag frame.payload width payload rest room fits)

-- From a connection that begins with what `Encode` wrote, `Read` fills the frame with the flag and
-- the payload that were encoded, whatever it held before, and leaves just the bytes behind it, if the
-- flag fits its three bits and the runtime can make the payload.
pub read-encode :
    (alloc : ℕ) (frame f : Frame) (rest : Bytes)
    → IsFrame alloc f
    → read alloc frame (encode f ++ rest) ≡ (done, f, rest)
unfolding encode
read-encode alloc frame f rest h = rw (mod_small (length f.payload) (2 ^ 64) h.size_fits) (
    read-Form alloc frame f.flag f.payload rest h.flag_fits h.payload_fits
      (header-Form f.flag (length f.payload) h.size_fits))

body_done :
    (alloc flag : ℕ) (old : Bytes) (n : ℕ) (conn rest : Bytes) (f : Frame)
    → read_body alloc flag old n conn ≡ (done, f, rest)
    → (n ≤ alloc) × (n ≤ length conn) × (f ≡ new_frame flag (take n conn)) × (rest ≡ drop n conn)
body_done alloc flag old n conn rest f h = go (Body-cases alloc flag old n conn)
  where
    go :
        Body alloc flag old n conn
        → (n ≤ alloc)
          × (n ≤ length conn)
          × (f ≡ new_frame flag (take n conn))
          × (rest ≡ drop n conn)
    go (whole a b e) = (a, b, cc, cc)
    go (cut _ _ e) = cc
    go (oversize _ e) = cc

body_decodes :
    (alloc flag : ℕ) (old : Bytes) (n : ℕ) (conn rest : Bytes) (f : Frame)
    → read_body alloc flag old n conn ≡ (done, f, rest)
    → (make_bytes alloc n conn >>= λ payload. some (new_frame flag payload)) ≡ some f
unfolding make_bytes
body_decodes alloc flag old n conn rest f h =
    let (room, enough, e, _) = body_done alloc flag old n conn rest f h in
    rw (le→leb n alloc room, make_copy-take n conn enough, e)

sized_decodes :
    (alloc flag b : ℕ) (old : Bytes) (width : ℕ) (conn rest : Bytes) (f : Frame)
    → read_sized alloc flag old width conn ≡ (done, f, rest)
    → decode_sized alloc flag width (b ∷ conn) ≡ some f
unfolding decode_sized uint_be slice
sized_decodes alloc flag b old width conn rest f h = elim (dec_lt (length conn) width) [
  | yes few ↦ cc (sized_few alloc flag old width conn few)
  | no enough ↦
      rw (le→leb width (length conn) (omega arith), slice_lem width conn (omega arith))
        (body_decodes alloc flag old (be_value 0 (take width conn)) (drop width conn) rest f
          (sym (sized_enough alloc flag old width conn (omega arith)) ∙ h))
]

-- Whatever bytes arrive, a frame that `Read` returns is the one that `Decode` finds in them.
pub decode-read :
    (alloc : ℕ) (frame f : Frame) (conn rest : Bytes)
    → read alloc frame conn ≡ (done, f, rest)
    → decode alloc conn ≡ some f
unfolding read decode
decode-read alloc frame f [] rest h = cc
decode-read alloc frame f (b ∷ conn) rest h = ground (
  arith,
  sized_decodes alloc (b / 32) b frame.payload 1 conn rest f,
  sized_decodes alloc (b / 32) b frame.payload 2 conn rest f,
  sized_decodes alloc (b / 32) b frame.payload 4 conn rest f,
  sized_decodes alloc (b / 32) b frame.payload 8 conn rest f,
  body_decodes alloc (b / 32) frame.payload (bit_and b 0x1f) conn rest f,
)
