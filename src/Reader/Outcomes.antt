-- ===== src/Reader/Outcomes.antt =====
-- What `Read` returns on the bytes of a frame, on a part of them, and on any input.
use Prim.Native.Nat.{bit_and}
use chat_libp2p.Common.{
  ℕ, ◌/◌, ◌≤◌, ◌<◌, ◌≡◌, ◌≢◌, arith, [], ◌∷◌, length, take, drop, Bytes, make_copy, le→leb, lt→leb,
  dec_lt, be_value,
}
use chat_libp2p.Frame.{Frame, new_frame}
use chat_libp2p.Reader.{
  done, failed, panicked, stuck, size_byte, payload_byte, read_body, read_sized, read,
}
use chat_libp2p.Reader.Chunks.{read_chunks_enough, read_chunks_short}

module _ (alloc flag : ℕ) (old : Bytes) (n : ℕ) (conn : Bytes) where
  pub body_enough :
      n ≤ alloc
      → n ≤ length conn
      → read_body alloc flag old n conn ≡ (done, new_frame flag (take n conn), drop n conn)
  unfolding read_body
  body_enough room enough =
      rw (le→leb n alloc room, read_chunks_enough n n n [] conn (omega arith) (omega arith) enough)

  body_short :
      n ≤ alloc
      → length conn < n
      → read_body alloc flag old n conn
        ≡ (failed payload_byte, new_frame flag (make_copy n conn), [])
  unfolding read_body
  body_short room cut =
      rw (le→leb n alloc room, read_chunks_short n n n [] conn (omega arith) (omega arith) cut)

  pub body_oversize :
      alloc < n → read_body alloc flag old n conn ≡ (panicked, new_frame flag old, conn)
  unfolding read_body
  body_oversize over = rw (lt→leb n alloc over)

-- The three ways in which reading the payload ends.
pub data Body (alloc flag : ℕ) (old : Bytes) (n : ℕ) (conn : Bytes) : Type 0 where
  whole :
      n ≤ alloc
      → n ≤ length conn
      → read_body alloc flag old n conn ≡ (done, new_frame flag (take n conn), drop n conn)
      → Body alloc flag old n conn
  cut :
      n ≤ alloc
      → length conn < n
      → read_body alloc flag old n conn
        ≡ (failed payload_byte, new_frame flag (make_copy n conn), [])
      → Body alloc flag old n conn
  oversize :
      alloc < n
      → read_body alloc flag old n conn ≡ (panicked, new_frame flag old, conn)
      → Body alloc flag old n conn

pub Body-cases : (alloc flag : ℕ) (old : Bytes) (n : ℕ) (conn : Bytes) → Body alloc flag old n conn
Body-cases alloc flag old n conn = elim (dec_lt alloc n) [
  | yes over ↦ oversize over (body_oversize alloc flag old n conn over)
  | no room ↦ elim (dec_lt (length conn) n) [
    | yes few ↦ cut (omega arith) few (body_short alloc flag old n conn (omega arith) few)
    | no enough ↦
        whole (omega arith) (omega arith)
          (body_enough alloc flag old n conn (omega arith) (omega arith))
  ]
]

module _ (alloc flag : ℕ) (old : Bytes) (width : ℕ) (conn : Bytes) where
  pub sized_enough :
      width ≤ length conn
      → read_sized alloc flag old width conn
        ≡ read_body alloc flag old (be_value 0 (take width conn)) (drop width conn)
  unfolding read_sized
  sized_enough h = rw (le→leb width (length conn) h, read_sized)

  pub sized_few :
      length conn < width
      → read_sized alloc flag old width conn ≡ (failed size_byte, new_frame flag old, [])
  unfolding read_sized
  sized_few h = rw (lt→leb width (length conn) h, read_sized)

-- The loop never runs out of its fuel.
body-ne-stuck :
    (alloc flag : ℕ) (old : Bytes) (n : ℕ) (conn : Bytes)
    → (read_body alloc flag old n conn).0 ≢ stuck
body-ne-stuck alloc flag old n conn = go (Body-cases alloc flag old n conn)
  where
    go : Body alloc flag old n conn → (read_body alloc flag old n conn).0 ≢ stuck
    go (whole _ _ e) = λ p. cc
    go (cut _ _ e) = λ p. cc
    go (oversize _ e) = λ p. cc

sized-ne-stuck :
    (alloc flag : ℕ) (old : Bytes) (width : ℕ) (conn : Bytes)
    → (read_sized alloc flag old width conn).0 ≢ stuck
unfolding read_sized
sized-ne-stuck alloc flag old width conn =
    ground (arith, body-ne-stuck alloc flag old (be_value 0 (take width conn)) (drop width conn))

-- `Read` ends on every input: it never runs out of fuel.
pub read-ne-stuck : (alloc : ℕ) (frame : Frame) (conn : Bytes) → (read alloc frame conn).0 ≢ stuck
unfolding read
read-ne-stuck alloc frame [] = λ e. cc
read-ne-stuck alloc frame (b ∷ conn) = ground (
  arith,
  sized-ne-stuck alloc (b / 32) frame.payload 1 conn,
  sized-ne-stuck alloc (b / 32) frame.payload 2 conn,
  sized-ne-stuck alloc (b / 32) frame.payload 4 conn,
  sized-ne-stuck alloc (b / 32) frame.payload 8 conn,
  body-ne-stuck alloc (b / 32) frame.payload (bit_and b 0x1f) conn,
)
