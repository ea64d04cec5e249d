-- ===== src/Peers/Records.antt =====
-- Reading and changing the record of a peer.
use chat_libp2p.Common.{◌≡◌, [], ◌∙◌, refl, true, false, some, Bytes, bytes_beq_iff, sym}
use chat_libp2p.Database.{
  Bolt, BoltLaws, Result, ok, or_fault, bolt_error, not_found, encode_error, decode_error, key_peer,
  get_bucket, get_or_new_bucket, update, update_ok, ends_open, same_entry, bind_ok, or_fault_ok,
}
use chat_libp2p.Database.Buckets.{get_or_new_bucket_lem}
use chat_libp2p.Peers.{
  Peer, Codec, CodecLaws, find, set_in_tx, save, save_in, save_data, set_evm_addr, set_remark,
}

module _ (d : Bolt) (w : BoltLaws d) (c : Codec Peer) (l : CodecLaws c) where
  -- The record that the database holds for a peer.
  abbrev pub Stored : d.Tx → Bytes → Peer → Type 0
  Stored t peer p = (buf : Bytes) × (d.get t key_peer peer ≡ some buf) × (c.decode buf ≡ some p)

  Stored-find :
      (t : d.Tx) (peer : Bytes) (p : Peer)
      → d.has t key_peer ≡ true
      → Stored t peer p
      → find d c peer t ≡ ok p
  unfolding find get_bucket ends_open
  Stored-find t peer p h (buf, e, f) = rw (h, e, f)

  ok_second : (t u : d.Tx) → ◌≡◌ {A = Result (Unit {0} × d.Tx)} (ok (tt, t)) (ok (tt, u)) → t ≡ u
  ok_second t u h = cc

  -- What changing a record does to the database.
  pub record Changed (change : Peer → Peer) (peer : Bytes) (t u : d.Tx) : Type 0 where
    pub old : Peer
    pub was_stored : Stored t peer old
    pub bucket : d.has u key_peer ≡ true
    pub is_stored : Stored u peer (change old)
    pub others : (b j : Bytes) → same_entry key_peer peer b j ≡ false → d.get u b j ≡ d.get t b j

  -- The steps of a change, one after the other.
  steps-Changed :
      (change : Peer → Peer) (peer : Bytes) (t t1 t2 : d.Tx) (buf bytes : Bytes) (p : Peer)
      → get_or_new_bucket d key_peer t ≡ ok t1
      → d.get t1 key_peer peer ≡ some buf
      → c.decode buf ≡ some p
      → c.encode (change p) ≡ some bytes
      → d.put t1 key_peer peer bytes ≡ some t2
      → Changed change peer t t2
  steps-Changed change peer t t1 t2 buf bytes p made got decoded encoded put =
      let (there, same) = get_or_new_bucket_lem d w t t1 key_peer made in
      record {
        old = p;
        was_stored = (buf, sym (same key_peer peer) ∙ got, decoded);
        bucket = w.has-put t1 t2 key_peer peer bytes key_peer put ∙ there;
        is_stored = (
          bytes,
          w.get-put t1 t2 key_peer peer bytes key_peer peer put
              ∙ rw ((bytes_beq_iff peer peer).1 refl),
          l.decode-encode (change p) bytes encoded,
        );
        others = λ b j ne. w.get-put t1 t2 key_peer peer bytes b j put ∙ rw ne (same b j);
      }

  set_in_tx_lem :
      (change : Peer → Peer) (peer : Bytes) (t u : d.Tx)
      → set_in_tx d c change peer t ≡ ok (tt, u)
      → Changed change peer t u
  unfolding set_in_tx
  set_in_tx_lem change peer t u h =
      let (t1, made, h1) = bind_ok (get_or_new_bucket d key_peer t) _ (tt, u) h in
      let (buf, got, h2) = bind_ok (or_fault not_found (d.get t1 key_peer peer)) _ (tt, u) h1 in
      let (p, decoded, h3) = bind_ok (or_fault decode_error (c.decode buf)) _ (tt, u) h2 in
      let (bytes, encoded, h4) =
        bind_ok (or_fault encode_error (c.encode (change p))) _ (tt, u) h3 in
      let (t2, put, h5) =
        bind_ok (or_fault bolt_error (d.put t1 key_peer peer bytes)) _ (tt, u) h4 in
      let same : t2 ≡ u = ok_second t2 u h5 in
      rw (← same) (
        steps-Changed change peer t t1 t2 buf bytes p made (or_fault_ok not_found _ buf got)
          (or_fault_ok decode_error _ p decoded) (or_fault_ok encode_error _ bytes encoded)
          (or_fault_ok bolt_error _ t2 put))

  -- A change that is reported as done is the change that the record gets: afterwards Find returns the
  -- record with the change made, and no other entry of the database is another.
  pub committed :
      (change : Peer → Peer) (peer : Bytes) (t u : d.Tx)
      → update d (set_in_tx d c change peer) t ≡ (ok tt, u)
      → Changed change peer t u
  committed change peer t u h = set_in_tx_lem change peer t u (update_ok d _ t u tt h)

  pub find-Changed :
      (change : Peer → Peer) (peer : Bytes) (t u : d.Tx)
      → d.has t key_peer ≡ true
      → Changed change peer t u
      → (p : Peer) × (find d c peer t ≡ ok p) × (find d c peer u ≡ ok (change p))
  find-Changed change peer t u there x = (
    x.old,
    Stored-find t peer x.old there x.was_stored,
    Stored-find u peer (change x.old) x.bucket x.is_stored,
  )

  -- After SetRemark of a peer that the database holds, when no error is reported, Find returns the record
  -- that it returned before with only the remark changed, and no other entry of any bucket is changed.
  pub find-set_remark :
      (peer remark : Bytes) (t u : d.Tx)
      → d.has t key_peer ≡ true
      → set_remark d c peer remark t ≡ (ok tt, u)
      → ((p : Peer) × (find d c peer t ≡ ok p)
          × (find d c peer u ≡ ok (record p { remark = remark })))
        × ((b j : Bytes) → same_entry key_peer peer b j ≡ false → d.get u b j ≡ d.get t b j)
  unfolding set_remark
  find-set_remark peer remark t u there h =
      let x = committed (λ p. record p { remark = remark }) peer t u h in
      (find-Changed (λ p. record p { remark = remark }) peer t u there x, x.others)

  save_queries :
      (local_peer local_evm name peer evm : Bytes) (t : d.Tx)
      → (save_data d c local_peer local_evm name peer t).evm_addr ≡ []
      → save d c local_peer local_evm name peer (some evm) t
        ≡ update d
            (set_in_tx d c (λ p. record p { evm_addr = evm }) peer)
            (update d (save_in d c local_peer local_evm name peer) t).1
  unfolding save set_evm_addr
  save_queries local_peer local_evm name peer evm t empty = rw empty refl

  -- After Save of a peer whose record has no address, when QueryEVM answers and no error is reported, Find
  -- returns a record with the address that was answered.
  pub find-save :
      (local_peer local_evm name peer evm : Bytes) (t u : d.Tx)
      → (save_data d c local_peer local_evm name peer t).evm_addr ≡ []
      → save d c local_peer local_evm name peer (some evm) t ≡ (ok tt, u)
      → (p : Peer) × (find d c peer u ≡ ok p) × (p.evm_addr ≡ evm)
  find-save local_peer local_evm name peer evm t u empty h =
      let x =
        committed (λ p. record p { evm_addr = evm }) peer
          (update d (save_in d c local_peer local_evm name peer) t).1 u
          (sym (save_queries local_peer local_evm name peer evm t empty) ∙ h) in
      (
        record x.old { evm_addr = evm },
        Stored-find u peer (record x.old { evm_addr = evm }) x.bucket x.is_stored,
        refl,
      )
