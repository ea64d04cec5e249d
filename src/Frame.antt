-- ===== src/Frame.antt =====
-- internal/common/protocol/frame.go: frames of up to eight flags over a payload of any length.
-- A byte that a slice does not hold is a panic, which `none` stands for.
pub mod Sizes
pub mod RoundTrip
use Prim.Native.Nat.{bit_and, bit_or}
use chat_libp2p.Common.{
  ℕ, ◌*◌, ◌/◌, ◌%◌, ◌^◌, ◌<◌, ◌≤◌, Option, none, some, List, [], ◌∷◌, ◌++◌, ◌>>=◌, leb, ◌==◌,
  if◌then◌else◌, length, get_elem?, Bytes, IsByte, put_be, slice, uint_be, make_copy, All,
}

pub record Frame : Type 0 where
  pub flag : ℕ
  pub payload : Bytes

abbrev pub flag_ack : ℕ
flag_ack = 0

abbrev pub flag_meta : ℕ
flag_meta = 1

abbrev pub flag_data : ℕ
flag_data = 2

abbrev pub new_frame : ℕ → Bytes → Frame
new_frame flag payload = record { flag = flag; payload = payload }

-- `byte(f.Flag<<5) | size`, where `f.Flag` is a uint8
unfoldable pub head_byte : ℕ → ℕ → ℕ
head_byte flag size = bit_or (flag * 32 % 256) size

-- What stands in front of the payload.
unfoldable pub header : ℕ → ℕ → Bytes
header flag psize =
    if leb psize 0x0f
    then head_byte flag (psize % 256) ∷ []
    else if leb psize 0xff
    then head_byte flag 0x10 ∷ psize % 256 ∷ []
    else if leb psize 0xffff
    then head_byte flag 0x11 ∷ put_be 2 (psize % 2 ^ 16)
    else if leb psize 0xffff_ffff
    then head_byte flag 0x12 ∷ put_be 4 (psize % 2 ^ 32)
    else head_byte flag 0x13 ∷ put_be 8 psize

unfoldable pub encode : Frame → Bytes
encode f = header f.flag (length f.payload % 2 ^ 64) ++ f.payload

-- `alloc` is the longest slice that the runtime can make: `make` panics above it.
unfoldable pub make_bytes : ℕ → ℕ → Bytes → Option Bytes
make_bytes alloc n src = if leb n alloc then some (make_copy n src) else none

-- A size of `width` bytes behind the first byte, then the payload.
unfoldable pub decode_sized : ℕ → ℕ → ℕ → Bytes → Option Frame
unfolding make_bytes
decode_sized alloc flag width buf = do
  tail ← slice 1 buf
  n ← uint_be width tail
  src ← slice width tail
  payload ← make_bytes alloc n src
  some (new_frame flag payload)

unfoldable pub decode : ℕ → Bytes → Option Frame
unfolding decode_sized
decode alloc [] = none
decode alloc (b ∷ bs) =
    let flag = b / 32 in
    let size = bit_and b 0x1f in
    if size == 0x10
    then decode_sized alloc flag 1 (b ∷ bs)
    else if size == 0x11
    then decode_sized alloc flag 2 (b ∷ bs)
    else if size == 0x12
    then decode_sized alloc flag 4 (b ∷ bs)
    else if size == 0x13
    then decode_sized alloc flag 8 (b ∷ bs)
    else (do payload ← make_bytes alloc size bs; some (new_frame flag payload))

-- A frame whose flag fits the three bits that the header has for it, with a payload that can be made.
pub record IsFrame (alloc : ℕ) (f : Frame) : Type 0 where
  pub flag_fits : f.flag < 8
  pub payload_fits : length f.payload ≤ alloc
  pub size_fits : length f.payload < 2 ^ 64
