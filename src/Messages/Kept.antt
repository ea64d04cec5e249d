-- ===== src/Messages/Kept.antt =====
-- What an entry is worth: which steps leave it as it is.
use chat_libp2p.Common.{
  ℕ, ◌≡◌, ◌∙◌, refl, subst, Bool, true, false, some, if◌then◌else◌, Bytes, bytes_beq, bytes_beq_iff,
  put_be,
}
use chat_libp2p.Database.{
  Bolt, BoltLaws, Result, ok, or_fault, or_fault_ok, bind_ok, bolt_error, encode_error,
  key_destroy_msg, same_entry, ends_open, suffix, get_bucket, get_or_new_bucket,
}
use chat_libp2p.Database.Buckets.{get_or_new_bucket_lem, get_or_new_closed, get_or_new_has}
use chat_libp2p.Peers.{Codec, CodecLaws}
use chat_libp2p.Messages.{
  Message, dialogue, received, put_in, has_bucket, schedule, exists_received, is_positive,
}
use chat_libp2p.Messages.Entries.{add_entry, get_message}

module _ (d : Bolt) (w : BoltLaws d) where
  -- An entry that a transaction can find.
  pub record Held (b k v : Bytes) (t : d.Tx) : Type 0 where
    pub closed : ends_open b ≡ false
    pub there : d.has t b ≡ true
    pub entry : d.get t b k ≡ some v

  pub get_or_new-Held :
      (t u : d.Tx) (b c k v : Bytes) → get_or_new_bucket d b t ≡ ok u → Held c k v t → Held c k v u
  get_or_new-Held t u b c k v h x = record {
    closed = x.closed;
    there = get_or_new_has d w t u b c h x.there;
    entry = (get_or_new_bucket_lem d w t u b h).1 c k ∙ x.entry;
  }

  pub put-Held :
      (t u : d.Tx) (b k v : Bytes)
      → ends_open b ≡ false
      → d.has t b ≡ true
      → d.put t b k v ≡ some u
      → Held b k v u
  put-Held t u b k v closed there h = record {
    closed = closed;
    there = w.has-put t u b k v b h ∙ there;
    entry = w.get-put t u b k v b k h ∙ rw ((bytes_beq_iff b b).1 refl, (bytes_beq_iff k k).1 refl);
  }

  pub put_other-Held :
      (t u : d.Tx) (b k v c j x : Bytes)
      → d.put t b k v ≡ some u
      → same_entry b k c j ≡ false
      → Held c j x t
      → Held c j x u
  put_other-Held t u b k v c j x h ne held = record {
    closed = held.closed;
    there = w.has-put t u b k v c h ∙ held.there;
    entry = w.get-put t u b k v c j h ∙ rw ne held.entry;
  }

  pub delete_other-Held :
      (t u : d.Tx) (b k c j x : Bytes)
      → d.delete t b k ≡ some u
      → same_entry b k c j ≡ false
      → Held c j x t
      → Held c j x u
  delete_other-Held t u b k c j x h ne held = record {
    closed = held.closed;
    there = w.has-delete t u b k c h ∙ held.there;
    entry = w.get-delete t u b k c j h ∙ rw ne held.entry;
  }

  pub put_in-Held : (t u : d.Tx) (b k v : Bytes) → put_in d b k v t ≡ ok u → Held b k v u
  unfolding put_in
  put_in-Held t u b k v h =
      let (t1, made, put) = bind_ok (get_or_new_bucket d b t) _ u h in
      put-Held t1 u b k v (get_or_new_closed d t t1 b made)
        (get_or_new_bucket_lem d w t t1 b made).0 (or_fault_ok bolt_error _ u put)

  pub put_in_other-Held :
      (t u : d.Tx) (b k v c j x : Bytes)
      → put_in d b k v t ≡ ok u
      → same_entry b k c j ≡ false
      → Held c j x t
      → Held c j x u
  unfolding put_in
  put_in_other-Held t u b k v c j x h ne held =
      let (t1, made, put) = bind_ok (get_or_new_bucket d b t) _ u h in
      put_other-Held t1 u b k v c j x (or_fault_ok bolt_error _ u put) ne
        (get_or_new-Held t t1 b c j x made held)

  scheduled :
      (positive : Bool) (peer k v : Bytes) (t u : d.Tx) (c j x : Bytes)
      → (if positive then put_in d key_destroy_msg k v t else ok t) ≡ ok u
      → bytes_beq key_destroy_msg c ≡ false
      → Held c j x t
      → Held c j x u
  scheduled true peer k v t u c j x h ne held =
      put_in_other-Held t u key_destroy_msg k v c j x h (rw ne refl) held
  scheduled false peer k v t u c j x h ne held = let same : t ≡ u = cc in rw (← same) held

  pub schedule-Held :
      (peer : Bytes) (id ttl now : ℕ) (t u : d.Tx) (c j x : Bytes)
      → schedule d peer id ttl now t ≡ ok u
      → bytes_beq key_destroy_msg c ≡ false
      → Held c j x t
      → Held c j x u
  unfolding schedule
  schedule-Held peer id ttl now t u c j x = scheduled (is_positive ttl) peer _ _ t u c j x

  pub ok_first :
      (n id : ℕ) (t u : d.Tx) → ◌≡◌ {A = Result (ℕ × d.Tx)} (ok (n, t)) (ok (id, u)) → n ≡ id
  ok_first n id t u h = cc

  pub ok_second :
      (n id : ℕ) (t u : d.Tx) → ◌≡◌ {A = Result (ℕ × d.Tx)} (ok (n, t)) (ok (id, u)) → t ≡ u
  ok_second n id t u h = cc

  pub Held-exists :
      (peer v : Bytes) (id : ℕ) (t : d.Tx)
      → Held (received peer) (put_be 8 id) v t
      → exists_received d peer id t ≡ true
  unfolding exists_received has_bucket get_bucket ends_open suffix
  Held-exists peer v id t x = rw (x.closed, x.there, x.entry)

  module _ (c : Codec Message) (l : CodecLaws c) where
    pub Held-get_message :
        (peer v : Bytes) (id : ℕ) (m : Message) (t : d.Tx)
        → Held (dialogue peer) (put_be 8 id) v t
        → c.decode v ≡ some m
        → get_message d c peer id t ≡ ok m
    unfolding get_message get_bucket ends_open suffix
    Held-get_message peer v id m t x e = rw (x.closed, x.there, x.entry, e)

    -- The database holds a message in a dialogue.
    abbrev pub Stored : Bytes → ℕ → Message → d.Tx → Type 0
    Stored peer id m t =
        (v : Bytes) × Held (dialogue peer) (put_be 8 id) v t × (c.decode v ≡ some m)

    pub Stored-get_message :
        (peer : Bytes) (id : ℕ) (m : Message) (t : d.Tx)
        → Stored peer id m t
        → get_message d c peer id t ≡ ok m
    Stored-get_message peer id m t (v, x, e) = Held-get_message peer v id m t x e

    added_by :
        (peer v : Bytes) (make : ℕ → Message) (t t1 t2 t3 : d.Tx) (n : ℕ)
        → get_or_new_bucket d (dialogue peer) t ≡ ok t1
        → d.next_sequence t1 (dialogue peer) ≡ some (n, t2)
        → c.encode (make n) ≡ some v
        → d.put t2 (dialogue peer) (put_be 8 n) v ≡ some t3
        → Stored peer n (make n) t3
    added_by peer v make t t1 t2 t3 n made next encoded put = (
      v,
      put-Held t2 t3 (dialogue peer) (put_be 8 n) v (get_or_new_closed d t t1 (dialogue peer) made)
          (w.has-next_sequence t1 t2 (dialogue peer) (dialogue peer) n next
            ∙ (get_or_new_bucket_lem d w t t1 (dialogue peer) made).0)
          put,
      l.decode-encode (make n) v encoded,
    )

    pub moved :
        (peer : Bytes) (make : ℕ → Message) (n id : ℕ) (t u : d.Tx)
        → ◌≡◌ {A = Result (ℕ × d.Tx)} (ok (n, t)) (ok (id, u))
        → Stored peer n (make n) t
        → Stored peer id (make id) u
    moved peer make n id t u h x =
        subst (λ y. Stored peer id (make id) y) (ok_second n id t u h)
          (subst (λ y. Stored peer y (make y) t) (ok_first n id t u h) x)

    pub add_entry-Stored :
        (peer : Bytes) (make : ℕ → Message) (t u : d.Tx) (id : ℕ)
        → add_entry d c peer make t ≡ ok (id, u)
        → Stored peer id (make id) u
    unfolding add_entry
    add_entry-Stored peer make t u id h =
        let (t1, made, h1) = bind_ok (get_or_new_bucket d (dialogue peer) t) _ (id, u) h in
        let ((n, t2), next, h2) =
          bind_ok (or_fault bolt_error (d.next_sequence t1 (dialogue peer))) _ (id, u) h1 in
        let (v, encoded, h3) = bind_ok (or_fault encode_error (c.encode (make n))) _ (id, u) h2 in
        let (t3, put, h4) =
          bind_ok (or_fault bolt_error (d.put t2 (dialogue peer) (put_be 8 n) v)) _ (id, u) h3 in
        moved peer make n id t3 u h4 (
          added_by peer v make t t1 t2 t3 n made (or_fault_ok bolt_error _ (n, t2) next)
            (or_fault_ok encode_error _ v encoded) (or_fault_ok bolt_error _ t3 put))
