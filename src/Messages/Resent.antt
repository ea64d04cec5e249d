-- ===== src/Messages/Resent.antt =====
-- internal/client/service/message.go: a text whose request arrives again.
use chat_libp2p.Common.{
  ℕ, ◌<◌, ◌^◌, ◌≡◌, ◌≢◌, ◌∙◌, refl, sym, ap, subst, arith, false, some, [], ◌++◌, Bytes, bytes_beq,
  bytes_beq_iff, Bool-cases, inl, inr, put_be, uint_be, uint_be-put_be,
}
use mathlib.Core.Option.{some-injective}
use chat_libp2p.Database.{
  Bolt, BoltLaws, ok, or_fault, or_fault_ok, bind_ok, bolt_error, encode_error, update, update_ok,
  same_entry, suffix, get_or_new_bucket,
}
use chat_libp2p.Peers.{Codec, CodecLaws}
use chat_libp2p.Messages.{Message, dialogue, received, put_in, schedule}
use chat_libp2p.Messages.Sequence.{sync_text_apart}
use chat_libp2p.Messages.Entries.{add_entry, sync_text, get_message}
use chat_libp2p.Messages.Kept.{
  Held, Stored, get_or_new-Held, put_other-Held, Stored-get_message, ok_first, ok_second,
}
use chat_libp2p.Messages.Delivery.{
  text_message, get_message-sync_text, sync_text-Stored, put_next, schedule_next,
}

put_be-injective : (n a b : ℕ) → a < 256 ^ n → b < 256 ^ n → put_be n a ≡ put_be n b → a ≡ b
put_be-injective n a b h k e =
    some-injective a b
      (sym (uint_be-put_be n a [] h) ∙ ap (λ bs. uint_be n (bs ++ [])) e ∙ uint_be-put_be n b [] k)

other_entry :
    (b : Bytes) (n id : ℕ)
    → id ≢ n
    → id < 2 ^ 64
    → n < 2 ^ 64
    → same_entry b (put_be 8 n) b (put_be 8 id) ≡ false
other_entry b n id ne h k = elim (Bool-cases (bytes_beq (put_be 8 n) (put_be 8 id))) [
  | inl same ↦ absurd (
      ne (
        put_be-injective 8 id n (omega arith) (omega arith)
          (sym ((bytes_beq_iff (put_be 8 n) (put_be 8 id)).0 same))))
  | inr other ↦ rw ((bytes_beq_iff b b).1 refl, other) refl
]

module _ (d : Bolt) (w : BoltLaws d) (c : Codec Message) (l : CodecLaws c) where
  next_sequence-Held :
      (t u : d.Tx) (b k v e : Bytes) (n : ℕ)
      → d.next_sequence t e ≡ some (n, u)
      → Held d w b k v t
      → Held d w b k v u
  next_sequence-Held t u b k v e n h x = record {
    closed = x.closed;
    there = w.has-next_sequence t u e b n h ∙ x.there;
    entry = w.get-next_sequence t u e b k n h ∙ x.entry;
  }

  -- A new message is put beside those with other numbers.
  add_entry-keeps :
      (peer : Bytes) (make : ℕ → Message) (m : Message) (id n : ℕ) (t u : d.Tx)
      → id ≢ n
      → id < 2 ^ 64
      → n < 2 ^ 64
      → add_entry d c peer make t ≡ ok (n, u)
      → Stored d w c l peer id m t
      → Stored d w c l peer id m u
  unfolding add_entry
  add_entry-keeps peer make m id n t u ne fits small h (x, held, e) =
      let (t1, made, h1) = bind_ok (get_or_new_bucket d (dialogue peer) t) _ (n, u) h in
      let ((j, t2), next, h2) =
        bind_ok (or_fault bolt_error (d.next_sequence t1 (dialogue peer))) _ (n, u) h1 in
      let (v, encoded, h3) = bind_ok (or_fault encode_error (c.encode (make j))) _ (n, u) h2 in
      let (t3, put, h4) =
        bind_ok (or_fault bolt_error (d.put t2 (dialogue peer) (put_be 8 j) v)) _ (n, u) h3 in
      let same : j ≡ n = ok_first d w j n t3 u h4 in
      (
        x,
        subst (Held d w (dialogue peer) (put_be 8 id) x) (ok_second d w j n t3 u h4) (
            put_other-Held d w t2 t3 (dialogue peer) (put_be 8 j) v (dialogue peer) (put_be 8 id) x
              (or_fault_ok bolt_error _ t3 put)
              (other_entry (dialogue peer) j id (λ q. ne (q ∙ same)) fits (omega (arith, same)))
              (next_sequence-Held t1 t2 (dialogue peer) (put_be 8 id) x (dialogue peer) j
                (or_fault_ok bolt_error _ (j, t2) next)
                (get_or_new-Held d w t t1 (dialogue peer) (dialogue peer) (put_be 8 id) x made
                  held))),
        e,
      )

  sync_text-keeps :
      (peer content : Bytes) (req_id ttl created now id n : ℕ) (m : Message) (t u : d.Tx)
      → id ≢ n
      → id < 2 ^ 64
      → n < 2 ^ 64
      → update d (sync_text d c peer req_id ttl content created now) t ≡ (ok n, u)
      → Stored d w c l peer id m t
      → Stored d w c l peer id m u
  unfolding sync_text suffix
  sync_text-keeps peer content req_id ttl created now id n m t u ne fits small h x =
      let h0 = update_ok d _ t u n h in
      let ((j, t1), added, h1) =
        bind_ok (add_entry d c peer (text_message content ttl created) t) _ (n, u) h0 in
      let (t2, marked, h2) =
        bind_ok (put_in d (received peer) (put_be 8 req_id) [] t1) _ (n, u) h1 in
      let (t3, planned, h3) = bind_ok (schedule d peer j ttl now t2) _ (n, u) h2 in
      let same : j ≡ n = ok_first d w j n t3 u h3 in
      let first =
        add_entry-keeps peer (text_message content ttl created) m id j t t1 (λ q. ne (q ∙ same))
          fits (omega (arith, same)) added x in
      let second =
        put_next d w c l peer (received peer) (put_be 8 req_id) [] m id t1 t2 marked refl first in
      subst (Stored d w c l peer id m) (ok_second d w j n t3 u h3)
        (schedule_next d w c l peer m id j ttl now t2 t3 planned second)

  -- A text whose request arrives again, as it does after its response was lost, is stored a second time:
  -- when both transactions end without an error, their numbers differ, and GetMessage returns the text
  -- under either number.
  pub text_resent :
      (peer content : Bytes) (req_id ttl at_first first_now again now n1 n2 : ℕ) (t u v : d.Tx)
      → update d (sync_text d c peer req_id ttl content at_first first_now) t ≡ (ok n1, u)
      → update d (sync_text d c peer req_id ttl content again now) u ≡ (ok n2, v)
      → (n1 ≢ n2)
        × (get_message d c peer n1 v ≡ ok (text_message content ttl at_first n1))
        × (get_message d c peer n2 v ≡ ok (text_message content ttl again n2))
  text_resent peer content req_id ttl at_first first_now again now n1 n2 t u v e f =
      let (ne, fits, small) =
        sync_text_apart d w c peer content req_id ttl at_first first_now again now n1 n2 t u v e
          f in
      let before =
        (sync_text-Stored d w c l peer content req_id ttl at_first first_now n1 t u e).0 in
      (
        ne,
        Stored-get_message d w c l peer n1 (text_message content ttl at_first n1) v (
            sync_text-keeps peer content req_id ttl again now n1 n2
              (text_message content ttl at_first n1) u v ne fits small f before),
        (get_message-sync_text d w c l peer content req_id ttl again now n2 u v f).0,
      )
