-- ===== src/Reader/Chunks.antt =====
-- The payload loop: its two outcomes.
use chat_libp2p.Common.{
  ℕ, zero, suc, ◌+◌, ◌-◌, ◌≤◌, ◌<◌, ◌≡◌, ◌∙◌, refl, ap, arith, some, none, [], ◌∷◌, ◌++◌, length,
  take, drop, Bytes, make_copy, length-append, dec_lt, length-take, length-drop, lt→ltb, le→leb,
  lt→leb,
}
use mathlib.Core.List.{append_assoc, append-nil}
use chat_libp2p.Reader.{done, failed, payload_byte, read_full, read_chunks, chunk_length}

take-nil : (n : ℕ) → take {A = ℕ} n [] ≡ []
take-nil zero = refl
take-nil (suc n) = refl

drop-nil : (n : ℕ) → drop {A = ℕ} n [] ≡ []
drop-nil zero = refl
drop-nil (suc n) = refl

take-take-drop : (k n : ℕ) (xs : Bytes) → k ≤ n → take k xs ++ take (n - k) (drop k xs) ≡ take n xs
take-take-drop zero n xs h = let e : n - 0 ≡ n = omega arith in rw e
take-take-drop (suc k) zero xs h = absurd (omega arith)
take-take-drop (suc k) (suc n) [] h = take-nil (suc n - suc k)
take-take-drop (suc k) (suc n) (x ∷ xs) h =
    let e : suc n - suc k ≡ n - k = omega arith in
    rw e (ap (λ t. x ∷ t) (take-take-drop k n xs (omega arith)))

drop-drop : (k n : ℕ) (xs : Bytes) → k ≤ n → drop (n - k) (drop k xs) ≡ drop n xs
drop-drop zero n xs h = let e : n - 0 ≡ n = omega arith in rw e
drop-drop (suc k) zero xs h = absurd (omega arith)
drop-drop (suc k) (suc n) [] h = drop-nil (suc n - suc k)
drop-drop (suc k) (suc n) (x ∷ xs) h =
    let e : suc n - suc k ≡ n - k = omega arith in rw e (drop-drop k n xs (omega arith))

-- A short source is copied piece by piece as it is copied at once.
make_copy-take-drop :
    (k n : ℕ) (xs : Bytes)
    → k ≤ n
    → k ≤ length xs
    → take k xs ++ make_copy (n - k) (drop k xs) ≡ make_copy n xs
unfolding make_copy
make_copy-take-drop zero n xs h hx = let e : n - 0 ≡ n = omega arith in rw e
make_copy-take-drop (suc k) zero xs h hx = absurd (omega arith)
make_copy-take-drop (suc k) (suc n) [] h hx = absurd (omega arith)
make_copy-take-drop (suc k) (suc n) (x ∷ xs) h hx =
    let e : suc n - suc k ≡ n - k = omega arith in
    rw e (ap (λ t. x ∷ t) (make_copy-take-drop k n xs (omega arith) (omega arith)))

pub read_full_enough :
    (n : ℕ) (conn : Bytes) → n ≤ length conn → read_full n conn ≡ some (take n conn, drop n conn)
unfolding read_full
read_full_enough n conn h = rw (le→leb n (length conn) h)

pub read_full_short : (n : ℕ) (conn : Bytes) → length conn < n → read_full n conn ≡ none
unfolding read_full
read_full_short n conn h = rw (lt→leb n (length conn) h)

chunk_bounds :
    (size i : ℕ) → i < size → (0 < chunk_length size i) × (chunk_length size i ≤ size - i)
chunk_bounds size i h = ground arith

chunks_done :
    (fuel size : ℕ) (got conn : Bytes)
    → size ≤ length got
    → read_chunks fuel size got conn ≡ (done, got, conn)
unfolding read_chunks
chunks_done zero size got conn h = ground arith
chunks_done (suc fuel) size got conn h = ground arith

module _ (fuel size : ℕ) (got conn : Bytes) where
  chunk_fails :
      length got < size
      → length conn < chunk_length size (length got)
      → read_chunks (suc fuel) size got conn
        ≡ (failed payload_byte, got ++ make_copy (size - length got) conn, [])
  unfolding read_chunks
  chunk_fails h short = rw (
    lt→ltb (length got) size h,
    read_full_short (chunk_length size (length got)) conn short,
    read_chunks,
  )

  chunk_read :
      length got < size
      → chunk_length size (length got) ≤ length conn
      → read_chunks (suc fuel) size got conn
        ≡ read_chunks fuel size
            (got ++ take (chunk_length size (length got)) conn)
            (drop (chunk_length size (length got)) conn)
  unfolding read_chunks
  chunk_read h room = rw (
    lt→ltb (length got) size h,
    read_full_enough (chunk_length size (length got)) conn room,
    read_chunks,
  )

-- If the connection delivers the whole payload, the loop reads just that.
pub read_chunks_enough :
    (fuel left : ℕ) (size : ℕ) (got conn : Bytes)
    → length got + left ≡ size
    → left ≤ fuel
    → left ≤ length conn
    → read_chunks fuel size got conn ≡ (done, got ++ take left conn, drop left conn)
read_chunks_enough fuel zero size got conn e hf hc =
    chunks_done fuel size got conn (omega arith) ∙ rw append-nil
read_chunks_enough zero (suc left) size got conn e hf hc = absurd (omega arith)
read_chunks_enough (suc fuel) (suc left) size got conn e hf hc =
    let k = chunk_length size (length got) in
    let (some_read, fits) = chunk_bounds size (length got) (omega arith) in
    chunk_read fuel size got conn (omega arith) (omega arith)
    ∙ read_chunks_enough fuel (suc left - k) size (got ++ take k conn) (drop k conn)
        (omega (arith, length-append got (take k conn), length-take k conn)) (omega arith)
        (omega (arith, length-drop k conn))
    ∙ rw (
      append_assoc,
      take-take-drop k (suc left) conn (omega arith),
      drop-drop k (suc left) conn (omega arith),
    )

-- If it does not, the loop fails, with what was received in front of zeros.
pub read_chunks_short :
    (fuel left : ℕ) (size : ℕ) (got conn : Bytes)
    → length got + left ≡ size
    → left ≤ fuel
    → length conn < left
    → read_chunks fuel size got conn ≡ (failed payload_byte, got ++ make_copy left conn, [])
read_chunks_short zero left size got conn e hf hc = absurd (omega arith)
read_chunks_short (suc fuel) left size got conn e hf hc =
    let k = chunk_length size (length got) in
    let (some_read, fits) = chunk_bounds size (length got) (omega arith) in
    let left_eq : size - length got ≡ left = omega arith in
    elim (dec_lt (length conn) k) [
      | yes short ↦ chunk_fails fuel size got conn (omega arith) short ∙ rw left_eq
      | no enough ↦
          chunk_read fuel size got conn (omega arith) (omega arith)
          ∙ read_chunks_short fuel (left - k) size (got ++ take k conn) (drop k conn)
              (omega (arith, length-append got (take k conn), length-take k conn)) (omega arith)
              (omega (arith, length-drop k conn))
          ∙ rw (append_assoc, make_copy-take-drop k left conn (omega arith) (omega arith))
    ]
