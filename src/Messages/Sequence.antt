-- ===== src/Messages/Sequence.antt =====
-- internal/client/service/message.go: the numbers of a dialogue's messages.
use chat_libp2p.Common.{
  ℕ, ◌+◌, ◌%◌, ◌^◌, ◌<◌, ◌≡◌, ◌≢◌, ◌∙◌, sym, ap, subst, arith, Bool, true, false, some, [], Bytes,
  bytes_beq, bytes_beq_iff, Bool-cases, inl, inr, if◌then◌else◌, put_be,
}
use chat_libp2p.Database.{
  Bolt, BoltLaws, ok, or_fault, or_fault_ok, bind_ok, bolt_error, encode_error, update, update_ok,
  suffix, get_or_new_bucket,
}
use chat_libp2p.Database.Buckets.{
  get_or_new_has, get_or_new_there, get_or_new_created, get_or_new_closed, get_or_new_bucket_lem,
}
use chat_libp2p.Peers.{Codec}
use chat_libp2p.Messages.{Message, dialogue, received, put_in, schedule, is_positive}
use chat_libp2p.Messages.Entries.{add_entry, sync_text}
use chat_libp2p.Messages.Kept.{ok_first, ok_second}
use chat_libp2p.Messages.Delivery.{text_message}

module _ (d : Bolt) (w : BoltLaws d) where
  -- The last number that a bucket gave.
  pub record Counts (c : Bytes) (n : ℕ) (t : d.Tx) : Type 0 where
    pub there : d.has t c ≡ true
    pub last : d.sequence t c ≡ n

  made_apart :
      (b c : Bytes) (t : d.Tx) → d.has t b ≡ false → d.has t c ≡ true → bytes_beq b c ≡ false
  made_apart b c t missing there = elim (Bool-cases (bytes_beq b c)) [
    | inl same ↦ absurd (cc (ap (d.has t) ((bytes_beq_iff b c).0 same), missing, there))
    | inr apart ↦ apart
  ]

  get_or_new-Counts :
      (b c : Bytes) (n : ℕ) (t u : d.Tx)
      → get_or_new_bucket d b t ≡ ok u
      → Counts c n t
      → Counts c n u
  get_or_new-Counts b c n t u h v = record {
    there = get_or_new_has d w t u b c h v.there;
    last =
        let closed = get_or_new_closed d t u b h in
        elim (Bool-cases (d.has t b)) [
          | inl there ↦
              (let same : t ≡ u = cc (get_or_new_there d t b closed there) in
                ap (λ x. d.sequence x c) (sym same) ∙ v.last)
          | inr missing ↦
              (let made : d.create t b ≡ some u =
                  or_fault_ok bolt_error _ u (cc (get_or_new_created d t b closed missing)) in
                w.sequence-create t u b c made (made_apart b c t missing v.there) ∙ v.last)
        ];
  }

  put-Counts :
      (b k x c : Bytes) (n : ℕ) (t u : d.Tx) → d.put t b k x ≡ some u → Counts c n t → Counts c n u
  put-Counts b k x c n t u h v = record {
    there = w.has-put t u b k x c h ∙ v.there;
    last = w.sequence-put t u b k x c h ∙ v.last;
  }

  put_in-Counts :
      (b k x c : Bytes) (n : ℕ) (t u : d.Tx) → put_in d b k x t ≡ ok u → Counts c n t → Counts c n u
  unfolding put_in
  put_in-Counts b k x c n t u h v =
      let (t1, made, put) = bind_ok (get_or_new_bucket d b t) _ u h in
      put-Counts b k x c n t1 u (or_fault_ok bolt_error _ u put)
        (get_or_new-Counts b c n t t1 made v)

  planned-Counts :
      (positive : Bool) (b k x c : Bytes) (n : ℕ) (t u : d.Tx)
      → (if positive then put_in d b k x t else ok t) ≡ ok u
      → Counts c n t
      → Counts c n u
  planned-Counts true b k x c n t u h v = put_in-Counts b k x c n t u h v
  planned-Counts false b k x c n t u h v = let same : t ≡ u = cc in subst (Counts c n) same v

  schedule-Counts :
      (peer c : Bytes) (id ttl now n : ℕ) (t u : d.Tx)
      → schedule d peer id ttl now t ≡ ok u
      → Counts c n t
      → Counts c n u
  unfolding schedule
  schedule-Counts peer c id ttl now n t u h v = planned-Counts (is_positive ttl) _ _ _ c n t u h v

  module _ (c : Codec Message) where
    -- A new message takes the next number of its dialogue.
    add_entry-Counts :
        (peer : Bytes) (make : ℕ → Message) (n : ℕ) (t u : d.Tx)
        → add_entry d c peer make t ≡ ok (n, u)
        → Counts (dialogue peer) n u
          × ((k : ℕ) → Counts (dialogue peer) k t → n ≡ (k + 1) % 2 ^ 64)
          × (n < 2 ^ 64)
    unfolding add_entry
    add_entry-Counts peer make n t u h =
        let (t1, made, h1) = bind_ok (get_or_new_bucket d (dialogue peer) t) _ (n, u) h in
        let ((j, t2), next, h2) =
          bind_ok (or_fault bolt_error (d.next_sequence t1 (dialogue peer))) _ (n, u) h1 in
        let (v, encoded, h3) = bind_ok (or_fault encode_error (c.encode (make j))) _ (n, u) h2 in
        let (t3, put, h4) =
          bind_ok (or_fault bolt_error (d.put t2 (dialogue peer) (put_be 8 j) v)) _ (n, u) h3 in
        let same : j ≡ n = ok_first d w j n t3 u h4 in
        let stepped = or_fault_ok bolt_error _ (j, t2) next in
        let (counted, now) = w.next_sequence-sequence t1 t2 (dialogue peer) j stepped in
        let there =
          w.has-next_sequence t1 t2 (dialogue peer) (dialogue peer) j stepped
          ∙ (get_or_new_bucket_lem d w t t1 (dialogue peer) made).0 in
        (
          subst (Counts (dialogue peer) n) (ok_second d w j n t3 u h4) (
              put-Counts (dialogue peer) (put_be 8 j) v (dialogue peer) n t2 t3
                (or_fault_ok bolt_error _ t3 put) (record { there = there; last = now ∙ same })),
          λ k x.
              sym same
              ∙ counted
              ∙ ap (λ i. (i + 1) % 2 ^ 64)
                  (get_or_new-Counts (dialogue peer) (dialogue peer) k t t1 made x).last,
          omega (arith, same, counted),
        )

    sync_text-Counts :
        (peer content : Bytes) (req_id ttl created now n : ℕ) (t u : d.Tx)
        → update d (sync_text d c peer req_id ttl content created now) t ≡ (ok n, u)
        → Counts (dialogue peer) n u
          × ((k : ℕ) → Counts (dialogue peer) k t → n ≡ (k + 1) % 2 ^ 64)
          × (n < 2 ^ 64)
    unfolding sync_text suffix
    sync_text-Counts peer content req_id ttl created now n t u h =
        let h0 = update_ok d _ t u n h in
        let ((j, t1), added, h1) =
          bind_ok (add_entry d c peer (text_message content ttl created) t) _ (n, u) h0 in
        let (t2, marked, h2) =
          bind_ok (put_in d (received peer) (put_be 8 req_id) [] t1) _ (n, u) h1 in
        let (t3, planned, h3) = bind_ok (schedule d peer j ttl now t2) _ (n, u) h2 in
        let same : j ≡ n = ok_first d w j n t3 u h3 in
        let (counts, next, small) =
          add_entry-Counts peer (text_message content ttl created) j t t1 added in
        let kept = schedule-Counts peer (dialogue peer) j ttl now j t2 t3 planned (
          put_in-Counts (received peer) (put_be 8 req_id) [] (dialogue peer) j t1 t2 marked
            counts) in
        (
          subst (λ i. Counts (dialogue peer) i u) same
              (subst (Counts (dialogue peer) j) (ok_second d w j n t3 u h3) kept),
          λ k x. sym same ∙ next k x,
          omega (arith, same, small),
        )

    -- Two texts one after the other have different numbers.
    pub sync_text_apart :
        (peer content : Bytes) (req_id ttl at_first first_now again now n1 n2 : ℕ) (t u v : d.Tx)
        → update d (sync_text d c peer req_id ttl content at_first first_now) t ≡ (ok n1, u)
        → update d (sync_text d c peer req_id ttl content again now) u ≡ (ok n2, v)
        → (n1 ≢ n2) × (n1 < 2 ^ 64) × (n2 < 2 ^ 64)
    sync_text_apart peer content req_id ttl at_first first_now again now n1 n2 t u v e f =
        let (counts, first, small) =
          sync_text-Counts peer content req_id ttl at_first first_now n1 t u e in
        let (later, next, fits) = sync_text-Counts peer content req_id ttl again now n2 u v f in
        let counted = next n1 counts in (λ same. omega (arith, same, counted, small), small, fits)
