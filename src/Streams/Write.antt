-- ===== src/Streams/Write.antt =====
-- internal/common/xrmmgr.go: WriteWithContext, which writes its data in chunks. The libp2p stream is a
-- parameter: its state, and a write, whose `none` is an error. The deadlines that are set before each
-- write are part of what the stream does.
use chat_libp2p.Common.{
  ℕ, zero, suc, ◌+◌, ◌≡◌, ◌∙◌, ◌≤◌, refl, sym, ap, subst, arith, Option, none, some, [], ◌∷◌, ◌++◌,
  Bytes, length, take, drop, length-append, take-append-drop,
}
use mathlib.Core.List.{append_assoc, append-nil}

pub record Conn : Type 1 where
  pub State : Type 0
  pub write : State → Bytes → State × Option ℕ
  pub close : State → State

-- The documented behaviour of a write that reports no error: all of its bytes are written, in order.
-- `written` is what was given to the network.
pub record ConnLaws (c : Conn) : Type 0 where
  pub written : c.State → Bytes
  pub write_all :
      (s : c.State) (bs : Bytes) (n : ℕ)
      → (c.write s bs).1 ≡ some n
      → (n ≡ length bs) × (written (c.write s bs).0 ≡ written s ++ bs)

abbrev pub chunk_size : ℕ
chunk_size = 4096

pub data Written : Type 0 where
  wrote : ℕ → Written
  write_error : ℕ → Written
  out_of_fuel : Written

module _ (c : Conn) where
  -- One round after a chunk was written, or not: the stream is closed on an error.
  unfoldable pub next_chunk :
      c.State × Option ℕ → ℕ → (c.State → ℕ → c.State × Written) → c.State × Written
  next_chunk (s, none) n others = (c.close s, write_error n)
  next_chunk (s, some num) n others = others s (n + num)

  -- The loop from `data[i:]` on, `n` bytes after its beginning.
  unfoldable pub write_loop : ℕ → Bytes → c.State → ℕ → c.State × Written
  unfolding next_chunk
  write_loop fuel [] s n = (s, wrote n)
  write_loop zero (b ∷ bs) s n = (s, out_of_fuel)
  write_loop (suc fuel) (b ∷ bs) s n =
      next_chunk (c.write s (take chunk_size (b ∷ bs))) n
        (write_loop fuel (drop chunk_size (b ∷ bs)))

  -- Each round writes a byte at least, so the length of the data is fuel enough.
  unfoldable pub write_with_context : Bytes → c.State → c.State × Written
  unfolding write_loop
  write_with_context bs s = write_loop (length bs) bs s 0

length-drop_lt : (n : ℕ) (b : ℕ) (bs : Bytes) → length (drop (suc n) (b ∷ bs)) ≤ length bs
length-drop_lt zero b bs = omega arith
length-drop_lt (suc n) b [] = omega arith
length-drop_lt (suc n) b (x ∷ bs) = let h = length-drop_lt n x bs in omega (arith, h)

module _ (c : Conn) (l : ConnLaws c) where
  -- What a run of the loop did: all the data was written and counted, or no more than it was counted.
  abbrev pub Writes : Bytes → c.State → ℕ → c.State × Written → Type 0
  Writes bs s n (u, wrote m) = (m ≡ n + length bs) × (l.written u ≡ l.written s ++ bs)
  Writes bs s n (u, write_error m) = (n ≤ m) × (m ≤ n + length bs)
  Writes bs s n (u, out_of_fuel) = ⊥

  joined :
      (front back : Bytes) (s t : c.State) (n m : ℕ) (r : c.State × Written)
      → m ≡ length front
      → l.written t ≡ l.written s ++ front
      → Writes back t (n + m) r
      → Writes (front ++ back) s n r
  joined front back s t n m (u, wrote k) e f h = (
    omega (arith, length-append front back, h.0),
    h.1 ∙ ap (λ x. x ++ back) f ∙ append_assoc (l.written s) front back,
  )
  joined front back s t n m (u, write_error k) e f h =
      omega (arith, length-append front back, h.0, h.1)
  joined front back s t n m (u, out_of_fuel) e f h = h

  round-Writes :
      (r : c.State × Option ℕ) (s : c.State) (n : ℕ) (front back : Bytes)
      (others : c.State → ℕ → c.State × Written)
      → ((m : ℕ) → r.1 ≡ some m → (m ≡ length front) × (l.written r.0 ≡ l.written s ++ front))
      → ((t : c.State) (k : ℕ) → Writes back t k (others t k))
      → Writes (front ++ back) s n (next_chunk c r n others)
  unfolding next_chunk
  round-Writes (t, none) s n front back others w h = omega arith
  round-Writes (t, some m) s n front back others w h =
      joined front back s t n m (others t (n + m)) (w m refl).0 (w m refl).1 (h t (n + m))

  loop-Writes :
      (fuel : ℕ) (bs : Bytes) (s : c.State) (n : ℕ)
      → length bs ≤ fuel
      → Writes bs s n (write_loop c fuel bs s n)
  unfolding write_loop
  loop-Writes fuel [] s n h = (omega arith, sym (append-nil (l.written s)))
  loop-Writes zero (b ∷ bs) s n h = absurd (omega arith)
  loop-Writes (suc fuel) (b ∷ bs) s n h =
      subst (λ x. Writes x s n (write_loop c (suc fuel) (b ∷ bs) s n))
        (take-append-drop chunk_size (b ∷ bs))
        (round-Writes (c.write s (take chunk_size (b ∷ bs))) s n (take chunk_size (b ∷ bs))
          (drop chunk_size (b ∷ bs)) (write_loop c fuel (drop chunk_size (b ∷ bs)))
          (l.write_all s (take chunk_size (b ∷ bs)))
          (λ t k.
            loop-Writes fuel (drop chunk_size (b ∷ bs)) t k
              (omega (arith, length-drop_lt 4095 b bs))))

  -- WriteWithContext writes in chunks just what one write of all its data would: if it reports no
  -- error, it counts every byte and the network was given the data in order. With an error it counts at most
  -- the bytes of the data, and it always ends.
  pub write_with_context-Writes :
      (bs : Bytes) (s : c.State) → Writes bs s 0 (write_with_context c bs s)
  unfolding write_with_context
  write_with_context-Writes bs s = loop-Writes (length bs) bs s 0 (omega arith)
