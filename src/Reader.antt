-- ===== src/Reader.antt =====
-- internal/common/protocol/reader.go: frames read from a connection. A connection is the list of the
-- bytes that it still delivers before it fails, by its end or by a read deadline.
mod Chunks
pub mod Outcomes
pub mod RoundTrip
pub mod Prefixes
use Prim.Native.Nat.{bit_and}
use chat_libp2p.Common.{
  ℕ, zero, suc, ◌+◌, ◌-◌, ◌/◌, Bool, true, false, Option, none, some, List, [], ◌∷◌, ◌++◌, leb, ltb,
  ◌==◌, if◌then◌else◌, length, take, drop, Bytes, be_value, make_copy,
}
use chat_libp2p.Frame.{Frame, new_frame}

pub data ReadError : Type 0 where
  meta_byte size_byte payload_byte : ReadError

-- `panicked` is a payload that the runtime cannot make; `stuck` is no Go value: out of fuel.
pub data Outcome : Type 0 where
  done : Outcome
  failed : ReadError → Outcome
  panicked stuck : Outcome

-- `io.ReadFull` into `n` bytes: `none` is its error.
unfoldable pub read_full : ℕ → Bytes → Option (Bytes × Bytes)
read_full n conn = if leb n (length conn) then some (take n conn, drop n conn) else none

-- `end - i`, where `end` is `i + 4096` cut to `size`
abbrev pub chunk_length : ℕ → ℕ → ℕ
chunk_length size i = (if ltb size (i + 4096) then size else i + 4096) - i

-- The loop over the payload in pieces of 4096 bytes. `got` are the bytes below `i`; what a failing
-- `io.ReadFull` has received stays in the payload, and the rest of it is still zero.
unfoldable pub read_chunks : ℕ → ℕ → Bytes → Bytes → Outcome × Bytes × Bytes
read_chunks zero size got conn =
    if ltb (length got) size then (stuck, got, conn) else (done, got, conn)
read_chunks (suc fuel) size got conn = elim (ltb (length got) size) [
  | false ↦ (done, got, conn)
  | true ↦ elim (read_full (chunk_length size (length got)) conn) [
    | none ↦ (failed payload_byte, got ++ make_copy (size - length got) conn, [])
    | some (chunk, rest) ↦ read_chunks fuel size (got ++ chunk) rest
  ]
]

-- `frame.Payload = make([]byte, n)` and the loop; each round reads a byte at least.
unfoldable pub read_body : ℕ → ℕ → Bytes → ℕ → Bytes → Outcome × Frame × Bytes
read_body alloc flag old n conn =
    if leb n alloc
    then (let (out, payload, rest) = read_chunks n n [] conn in (out, new_frame flag payload, rest))
    else (panicked, new_frame flag old, conn)

-- A size of `width` bytes, then the payload. The frame keeps its old payload until it is made.
unfoldable pub read_sized : ℕ → ℕ → Bytes → ℕ → Bytes → Outcome × Frame × Bytes
unfolding read_full
read_sized alloc flag old width conn = elim (read_full width conn) [
  | none ↦ (failed size_byte, new_frame flag old, [])
  | some (size, rest) ↦ read_body alloc flag old (be_value 0 size) rest
]

unfoldable pub read : ℕ → Frame → Bytes → Outcome × Frame × Bytes
read alloc frame [] = (failed meta_byte, frame, [])
read alloc frame (b ∷ conn) =
    let flag = b / 32 in
    let size = bit_and b 0x1f in
    if size == 0x10
    then read_sized alloc flag frame.payload 1 conn
    else if size == 0x11
    then read_sized alloc flag frame.payload 2 conn
    else if size == 0x12
    then read_sized alloc flag frame.payload 4 conn
    else if size == 0x13
    then read_sized alloc flag frame.payload 8 conn
    else read_body alloc flag frame.payload size conn
