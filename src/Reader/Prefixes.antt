-- ===== src/Reader/Prefixes.antt =====
-- `Read` on a part of a frame, on more than one frame, and on a size that cannot be allocated.
use Prim.Native.Nat.{bit_and}
use chat_libp2p.Common.{
  ℕ, zero, suc, ◌/◌, ◌^◌, ◌≤◌, ◌<◌, ◌≡◌, ◌≢◌, ◌∙◌, refl, ap, arith, [], ◌∷◌, ◌++◌, ◌==◌, if_rel,
  length, take, drop, Bytes, length-append, dec_lt, take_all, put_be, be_value, length-put_be,
  be_value-put_be,
}
use mathlib.Core.List.{append-nil}
use chat_libp2p.Frame.{Frame, IsFrame, new_frame, header, encode}
use chat_libp2p.Frame.Sizes.{Form, short, long, header-Form}
use chat_libp2p.Reader.{
  Outcome, ReadError, done, failed, panicked, stuck, read_body, read_sized, read,
}
use chat_libp2p.Reader.Outcomes.{
  Body, Body-cases, whole, cut, oversize, body_enough, body_oversize, sized_enough, sized_few,
  read-ne-stuck,
}
use chat_libp2p.Reader.RoundTrip.{read_coded, read_short, read-encode}

take-append_le : (n : ℕ) (xs ys : Bytes) → n ≤ length xs → take n (xs ++ ys) ≡ take n xs
take-append_le zero xs ys h = refl
take-append_le (suc n) [] ys h = absurd (omega arith)
take-append_le (suc n) (x ∷ xs) ys h = ap (λ t. x ∷ t) (take-append_le n xs ys (omega arith))

drop-append_le : (n : ℕ) (xs ys : Bytes) → n ≤ length xs → drop n (xs ++ ys) ≡ drop n xs ++ ys
drop-append_le zero xs ys h = refl
drop-append_le (suc n) [] ys h = absurd (omega arith)
drop-append_le (suc n) (x ∷ xs) ys h = drop-append_le n xs ys (omega arith)

-- A final answer: what `Read` returns does not change when more bytes arrive.
abbrev IsFinal : Outcome → Type 0
IsFinal done = Unit {0}
IsFinal (failed e) = ⊥
IsFinal panicked = Unit {0}
IsFinal stuck = ⊥

-- `r'` is the final answer `r` with `more` bytes left over.
abbrev Extends : Bytes → Outcome × Frame × Bytes → Outcome × Frame × Bytes → Type 0
Extends more r r' = IsFinal r.0 → r' ≡ (r.0, r.1, r.2 ++ more)

body-append :
    (alloc flag : ℕ) (old : Bytes) (n : ℕ) (conn more : Bytes)
    → Extends more (read_body alloc flag old n conn) (read_body alloc flag old n (conn ++ more))
body-append alloc flag old n conn more h = go (Body-cases alloc flag old n conn)
  where
    go :
        Body alloc flag old n conn
        → read_body alloc flag old n (conn ++ more) ≡ (
          (read_body alloc flag old n conn).0,
          (read_body alloc flag old n conn).1,
          (read_body alloc flag old n conn).2 ++ more,
        )
    go (whole room enough e) =
        body_enough alloc flag old n (conn ++ more) room (omega (arith, length-append conn more))
        ∙ rw (e, take-append_le n conn more enough, drop-append_le n conn more enough)
    go (cut _ _ e) = absurd (rw e at h)
    go (oversize over e) = body_oversize alloc flag old n (conn ++ more) over ∙ rw e

sized-append :
    (alloc flag : ℕ) (old : Bytes) (width : ℕ) (conn more : Bytes)
    → Extends more
        (read_sized alloc flag old width conn)
        (read_sized alloc flag old width (conn ++ more))
sized-append alloc flag old width conn more h = elim (dec_lt (length conn) width) [
  | yes few ↦ absurd (rw (sized_few alloc flag old width conn few) at h)
  | no enough ↦
      sized_enough alloc flag old width (conn ++ more) (omega (arith, length-append conn more))
      ∙ rw
          (
            take-append_le width conn more (omega arith),
            drop-append_le width conn more (omega arith),
            sized_enough alloc flag old width conn (omega arith),
          )
          (body-append alloc flag old (be_value 0 (take width conn)) (drop width conn) more
            (rw (sized_enough alloc flag old width conn (omega arith)) at h))
]

read-append :
    (alloc : ℕ) (frame : Frame) (conn more : Bytes)
    → Extends more (read alloc frame conn) (read alloc frame (conn ++ more))
unfolding read
read-append alloc frame [] more = λ h. absurd h
read-append alloc frame (b ∷ conn) more =
    let flag = b / 32 in
    let size = bit_and b 0x1f in
    let old = frame.payload in
    if_rel (Extends more) (size == 0x10) (sized-append alloc flag old 1 conn more) (
      if_rel (Extends more) (size == 0x11) (sized-append alloc flag old 2 conn more) (
        if_rel (Extends more) (size == 0x12) (sized-append alloc flag old 4 conn more) (
          if_rel (Extends more) (size == 0x13) (sized-append alloc flag old 8 conn more)
            (body-append alloc flag old size conn more))))

-- Once `Read` has returned a frame, more bytes behind its input change nothing but what is left.
pub read-append_done :
    (alloc : ℕ) (frame f : Frame) (conn rest more : Bytes)
    → read alloc frame conn ≡ (done, f, rest)
    → read alloc frame (conn ++ more) ≡ (done, f, rest ++ more)
read-append_done alloc frame f conn rest more e = read-append alloc frame conn more (rw e tt) ∙ rw e

append_cons_nonempty : (xs ys : Bytes) (x : ℕ) → (xs ++ x ∷ ys) ≢ []
append_cons_nonempty [] ys x e = cc
append_cons_nonempty (z ∷ xs) ys x e = cc

-- On every proper prefix of an encoded frame `Read` fails with an error: it returns no frame, does
-- not panic, and does not loop.
pub read-prefix :
    (alloc : ℕ) (frame f : Frame) (front back : Bytes) (x : ℕ)
    → IsFrame alloc f
    → encode f ≡ front ++ x ∷ back
    → (e : ReadError) × ((read alloc frame front).0 ≡ failed e)
read-prefix alloc frame f front back x h e = go (read alloc frame front) refl
  where
    whole_frame : read alloc frame (front ++ x ∷ back) ≡ (done, f, [])
    whole_frame = rw (append-nil, e) at (read-encode alloc frame f [] h)

    go :
        (r : Outcome × Frame × Bytes)
        → read alloc frame front ≡ r
        → (e : ReadError) × (r.0 ≡ failed e)
    go (failed c, g, rest) r = (c, refl)
    go (done, g, rest) r = absurd (
        append_cons_nonempty rest back x
          (cc (whole_frame, read-append_done alloc frame g front rest (x ∷ back) r)))
    go (panicked, g, rest) r =
        absurd (cc (whole_frame, r, read-append alloc frame front (x ∷ back) (rw r tt)))
    go (stuck, g, rest) r = absurd (read-ne-stuck alloc frame front (ap (λ t. t.0) r))

-- A header of at most nine bytes that announces a payload above what the runtime can allocate makes
-- `Read` panic, before a byte of the payload has arrived.
pub read_oversize :
    (alloc : ℕ) (frame : Frame) (flag n : ℕ)
    → flag < 8
    → n < 2 ^ 64
    → alloc < n
    → (length (header flag n) ≤ 9) × ((read alloc frame (header flag n)).0 ≡ panicked)
read_oversize alloc frame flag n hf fits over = go (header-Form flag n fits)
  where
    go :
        Form flag n
        → (length (header flag n) ≤ 9) × ((read alloc frame (header flag n)).0 ≡ panicked)
    go (short small e) = rw e (
      omega arith,
      ap (λ t. t.0)
          (read_short alloc frame flag [] hf n small
            ∙ body_oversize alloc flag frame.payload n [] over),
    )
    go (long c width hc room e) = rw e (
      omega (arith, length-put_be width n),
      ap (λ t. t.0) {y = (panicked, new_frame flag frame.payload, drop width (put_be width n))}
          (read_coded alloc frame flag (put_be width n) hf c width hc
            ∙ sized_enough alloc flag frame.payload width (put_be width n)
                (omega (arith, length-put_be width n))
            ∙ rw
                (
                  take_all width (put_be width n) (omega (arith, length-put_be width n)),
                  be_value-put_be width n room,
                )
                (body_oversize alloc flag frame.payload n _ over)),
    )
