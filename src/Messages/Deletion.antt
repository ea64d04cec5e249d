-- ===== src/Messages/Deletion.antt =====
-- internal/client/service/message.go: what DelMessages leaves.
use chat_libp2p.Common.{
  ℕ, ◌≡◌, ◌∙◌, refl, sym, ap, subst, Bool, true, false, none, some, List, [], ◌∷◌, Bytes, put_be,
  bytes_beq_iff, All, map-All, Option-cases, inl, inr,
}
use chat_libp2p.Database.{
  Bolt, BoltLaws, ok, err, update_ok, bind_ok, same_entry, not_found, get_or_new_bucket, ends_open,
}
use chat_libp2p.Database.Buckets.{get_or_new_bucket_lem}
use chat_libp2p.Peers.{Codec, CodecLaws}
use chat_libp2p.Messages.{Message, dialogue, delete_all, delete_ids, del_in, del_messages}
use chat_libp2p.Messages.Entries.{get_message}
use chat_libp2p.Messages.Expiry.{none_kept}
use chat_libp2p.Messages.Finish.{no_entry}

module _ (d : Bolt) (w : BoltLaws d) where
  deletes_first :
      (peer : Bytes) (id : ℕ) (ids : List ℕ) (t u : d.Tx)
      → delete_all d peer (id ∷ ids) t ≡ (true, u)
      → (v : d.Tx) × (d.delete t (dialogue peer) (put_be 8 id) ≡ some v)
        × (delete_all d peer ids v ≡ (true, u))
  unfolding delete_all
  deletes_first peer id ids t u h = elim (Option-cases (d.delete t (dialogue peer) (put_be 8 id))) [
    | inl failed ↦ absurd (cc (rw (failed, delete_all) at h))
    | inr (v, gone) ↦ (v, gone, rw (gone, delete_all) at h)
  ]

  -- An entry that none of the numbers has stays as it is.
  others_stay :
      (peer b k : Bytes) (ids : List ℕ) (t u : d.Tx)
      → delete_all d peer ids t ≡ (true, u)
      → All (λ id. same_entry (dialogue peer) (put_be 8 id) b k ≡ false) ids
      → d.get u b k ≡ d.get t b k
  unfolding delete_all
  others_stay peer b k [] t u h ne =
      let same : t ≡ u = ap (λ r. r.1) h in ap (λ x. d.get x b k) (sym same)
  others_stay peer b k (id ∷ ids) t u h (ne, nes) =
      let (v, gone, rest) = deletes_first peer id ids t u h in
      others_stay peer b k ids v u rest nes
      ∙ w.get-delete t v (dialogue peer) (put_be 8 id) b k gone
      ∙ rw ne refl

  none_stays :
      (peer b k : Bytes) (ids : List ℕ) (t u : d.Tx)
      → delete_all d peer ids t ≡ (true, u)
      → d.get t b k ≡ none
      → d.get u b k ≡ none
  unfolding delete_all
  none_stays peer b k [] t u h e =
      let same : t ≡ u = ap (λ r. r.1) h in subst (λ x. d.get x b k ≡ none) same e
  none_stays peer b k (id ∷ ids) t u h e =
      let (v, gone, rest) = deletes_first peer id ids t u h in
      none_stays peer b k ids v u rest (
        w.get-delete t v (dialogue peer) (put_be 8 id) b k gone
        ∙ none_kept (same_entry (dialogue peer) (put_be 8 id) b k) (d.get t b k) e)

  each_gone :
      (peer : Bytes) (ids : List ℕ) (t u : d.Tx)
      → delete_all d peer ids t ≡ (true, u)
      → All (λ id. d.get u (dialogue peer) (put_be 8 id) ≡ none) ids
  each_gone peer [] t u h = tt
  each_gone peer (id ∷ ids) t u h =
      let (v, gone, rest) = deletes_first peer id ids t u h in
      (
        none_stays peer (dialogue peer) (put_be 8 id) ids v u rest (
            w.get-delete t v (dialogue peer) (put_be 8 id) (dialogue peer) (put_be 8 id) gone
            ∙ rw (
              (bytes_beq_iff (dialogue peer) (dialogue peer)).1 refl,
              (bytes_beq_iff (put_be 8 id) (put_be 8 id)).1 refl,
            )),
        each_gone peer ids v u rest,
      )

  all_done : (r : Bool × d.Tx) (u : d.Tx) → delete_ids d r ≡ ok (tt, u) → r ≡ (true, u)
  unfolding delete_ids
  all_done (true, v) u h = let same : v ≡ u = cc in ap (λ x. (true, x)) same
  all_done (false, v) u h = absurd (cc h)

  ran :
      (peer : Bytes) (ids : List ℕ) (t u : d.Tx)
      → del_messages d peer ids t ≡ (ok tt, u)
      → (t1 : d.Tx) × (get_or_new_bucket d (dialogue peer) t ≡ ok t1)
        × (delete_all d peer ids t1 ≡ (true, u))
  unfolding del_messages del_in
  ran peer ids t u h =
      let h0 = update_ok d (del_in d peer ids) t u tt h in
      let (t1, made, h1) =
        bind_ok (get_or_new_bucket d (dialogue peer) t)
          (λ x. delete_ids d (delete_all d peer ids x)) (tt, u) h0 in
      (t1, made, all_done (delete_all d peer ids t1) u h1)

  -- After DelMessages without an error, in the dialogue with a peer whose identifier can name a bucket,
  -- GetMessage finds none of the numbers, and every entry of any bucket but theirs is as it was.
  pub del_messages_lem :
      (c : Codec Message) (l : CodecLaws c) (peer : Bytes) (ids : List ℕ) (t u : d.Tx)
      → ends_open (dialogue peer) ≡ false
      → del_messages d peer ids t ≡ (ok tt, u)
      → All (λ id. get_message d c peer id u ≡ err not_found) ids
        × ((b k : Bytes)
            → All (λ id. same_entry (dialogue peer) (put_be 8 id) b k ≡ false) ids
            → d.get u b k ≡ d.get t b k)
  del_messages_lem c l peer ids t u closed h =
      let (t1, made, run) = ran peer ids t u h in
      (
        map-All ids (λ id e. no_entry d w c l peer u id closed e) (each_gone peer ids t1 u run),
        λ b k ne.
            others_stay peer b k ids t1 u run ne
            ∙ (get_or_new_bucket_lem d w t t1 (dialogue peer) made).1 b k,
      )
