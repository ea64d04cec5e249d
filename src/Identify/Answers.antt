-- ===== src/Identify/Answers.antt =====
-- A query, its answer by the other peer, and what the waiting query gets.
use chat_libp2p.Common.{
  ℕ, ◌+◌, ◌^◌, ◌≤◌, ◌<◌, ◌≡◌, ◌∙◌, refl, sym, ap, arith, Option, none, some, [], ◌++◌, Bytes,
  length, put_be, uint_be-put_be, slice_exact, length-put_be, length-append, lookup, insert, nat_eq,
}
use mathlib.Core.List.{append-nil}
use chat_libp2p.Frame.{Frame, flag_meta, flag_data, new_frame, decode}
use chat_libp2p.Frame.RoundTrip.{decode-encode}
use chat_libp2p.Exchange.{State, deliver, offer}
use chat_libp2p.Identify.{Identify, answer_bytes, handle_answer, query_bytes}

-- What arrives when `here` asks `there`: the query's frame is decoded, its payload is answered, and the
-- answer's frame is decoded.
unfoldable pub exchange : ℕ → Identify → ℕ → Option Frame
exchange alloc there id = elim (decode alloc (query_bytes id)) [
  | none ↦ none
  | some f ↦ decode alloc (answer_bytes there f.payload)
]

handle_answer_lem :
    (s : State Bytes) (id : ℕ) (evm : Bytes)
    → id < 2 ^ 16
    → handle_answer (put_be 2 id ++ evm) s ≡ some (deliver s id evm)
unfolding handle_answer
handle_answer_lem s id evm h =
    rw (uint_be-put_be 2 id evm (omega arith), slice_exact 2 (put_be 2 id) evm (length-put_be 2 id))

decoded_query :
    (alloc id : ℕ)
    → 2 ≤ alloc
    → decode alloc (query_bytes id) ≡ some (new_frame flag_meta (put_be 2 id))
unfolding query_bytes
decoded_query alloc id h =
    ap (decode alloc) (sym (append-nil _))
    ∙ decode-encode alloc (new_frame flag_meta (put_be 2 id)) [] (record {
      flag_fits = omega arith;
      payload_fits = omega (arith, length-put_be 2 id);
      size_fits = omega (arith, length-put_be 2 id);
    })

decoded_answer :
    (alloc id : ℕ) (there : Identify)
    → length there.evm_addr + 2 ≤ alloc
    → length there.evm_addr + 2 < 2 ^ 64
    → decode alloc (answer_bytes there (put_be 2 id))
      ≡ some (new_frame flag_data (put_be 2 id ++ there.evm_addr))
unfolding answer_bytes
decoded_answer alloc id there h k =
    ap (decode alloc) (sym (append-nil _))
    ∙ decode-encode alloc (new_frame flag_data (put_be 2 id ++ there.evm_addr)) [] (record {
      flag_fits = omega arith;
      payload_fits = omega (arith, length-put_be 2 id, length-append (put_be 2 id) there.evm_addr);
      size_fits = omega (arith, length-put_be 2 id, length-append (put_be 2 id) there.evm_addr);
    })

-- A query's frame, decoded and answered by another peer, comes back as a data frame whose payload fills
-- the channel of the query that waits under the identifier, if it is empty, with just the address that
-- the other peer was made with.
pub handle_answer-answer_bytes :
    (alloc id ch : ℕ) (there : Identify) (s : State Bytes)
    → id < 2 ^ 16
    → length there.evm_addr + 2 ≤ alloc
    → length there.evm_addr + 2 < 2 ^ 64
    → lookup id s.result ≡ some ch
    → lookup ch s.channels ≡ none
    → (f : Frame) × (exchange alloc there id ≡ some f)
      × (f.flag ≡ flag_data)
      × (handle_answer f.payload s
          ≡ some (record s { channels = insert ch there.evm_addr s.channels }))
unfolding exchange deliver offer
handle_answer-answer_bytes alloc id ch there s small fits size waits empty = (
  new_frame flag_data (put_be 2 id ++ there.evm_addr),
  rw (decoded_query alloc id (omega arith), exchange) (decoded_answer alloc id there fits size),
  refl,
  handle_answer_lem s id there.evm_addr small ∙ rw (waits, deliver, empty, offer) refl,
)
