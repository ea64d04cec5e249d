-- ===== src/Messages/Images.antt =====
-- What syncHash and syncBytes of internal/client/service/message.go have done when they answer.
use chat_libp2p.Common.{
  ℕ, ◌≡◌, ◌≢◌, ◌∙◌, refl, sym, ap, subst, true, false, Option, none, some, [], ◌++◌, Bytes, put_be,
  bytes_beq, bytes_beq_iff, Bool-cases, inl, inr,
}
use chat_libp2p.Database.{Bolt, BoltLaws, Result, ok, err, update, update_ok, bind_ok, suffix}
use chat_libp2p.Peers.{Codec, CodecLaws}
use chat_libp2p.Image as Img
use chat_libp2p.Messages.{Message, received, put_in, schedule, is_positive, exists_received}
use chat_libp2p.Messages.Entries.{add_entry, image_message, sync_hash, sync_bytes, get_message}
use chat_libp2p.Messages.Kept.{Stored-get_message, Held-exists}
use chat_libp2p.Messages.Delivery.{delivered}
use chat_libp2p.Messages.Files.{
  Host, Outcome, stop, announce, refuse_hash, check_hash, with_subdir, image_subdir,
  handle_sync_hash,
}

module _ (d : Bolt) (w : BoltLaws d) (c : Codec Message) (l : CodecLaws c) where
  -- The dialogue has the image under the number `n`, and the request is known to be received.
  abbrev pub Kept : Bytes → ℕ → Bytes → ℕ → ℕ → d.Tx → Type 0
  Kept peer id filename created n u =
      (get_message d c peer n u ≡ ok (image_message d c filename created n))
      × (exists_received d peer id u ≡ true)

  nothing_planned : (peer : Bytes) (n : ℕ) (t : d.Tx) → schedule d peer n 0 0 t ≡ ok t
  unfolding schedule is_positive
  nothing_planned peer n t = refl

  sync_hash-Kept :
      (peer filename : Bytes) (id created n : ℕ) (t u : d.Tx)
      → update d (sync_hash d c peer id filename created) t ≡ (ok n, u)
      → Kept peer id filename created n u
  unfolding sync_hash suffix
  sync_hash-Kept peer filename id created n t u h =
      let h0 = update_ok d (sync_hash d c peer id filename created) t u n h in
      let ((k, t1), added, h1) =
        bind_ok (add_entry d c peer (image_message d c filename created) t) _ (n, u) h0 in
      let (t2, marked, h2) = bind_ok (put_in d (received peer) (put_be 8 id) [] t1) _ (n, u) h1 in
      let (stored, held) =
        delivered d w c l peer (received peer) (put_be 8 id) (image_message d c filename created) k
          n 0 0 t t1 t2 t2 u added marked (nothing_planned peer k t2) h2 (λ j. refl) refl in
      (
        Stored-get_message d w c l peer n (image_message d c filename created n) u stored,
        Held-exists d w peer [] id u held,
      )

  sync_bytes-sync_hash :
      (peer filename : Bytes) (id created : ℕ) (t : d.Tx)
      → sync_bytes d c peer id filename created t ≡ sync_hash d c peer id filename created t
  unfolding sync_bytes sync_hash
  sync_bytes-sync_hash peer filename id created t = refl

  pub sync_bytes-Kept :
      (peer filename : Bytes) (id created n : ℕ) (t u : d.Tx)
      → update d (sync_bytes d c peer id filename created) t ≡ (ok n, u)
      → Kept peer id filename created n u
  unfolding update
  sync_bytes-Kept peer filename id created n t u h =
      sync_hash-Kept peer filename id created n t u
        (rw (← sync_bytes-sync_hash peer filename id created t) h)

  module _ (h : Host) (dir : Bytes) where
    -- A stored image: the message names a file, and `Content` holds of what is in it.
    abbrev pub Shows : (Bytes → Type 0) → Bytes → ℕ → ℕ → Outcome h d c dir → Type 0
    Shows Content peer id created o =
        (n : ℕ) × (filename : Bytes) × (content : Bytes) × (o.received ≡ some n)
        × (h.read_file o.files filename ≡ some content)
        × Content content
        × Kept peer id filename created n o.tx

    pub announce-Shows :
        (Content : Bytes → Type 0) (peer filename content : Bytes) (id created : ℕ)
        (a b : Img.Action) (f : h.Files) (r : Result ℕ × d.Tx)
        → h.read_file f filename ≡ some content
        → Content content
        → ((n : ℕ) → r ≡ (ok n, r.1) → Kept peer id filename created n r.1)
        → (announce h d c dir a f r).response ≡ some b
        → Shows Content peer id created (announce h d c dir a f r)
    unfolding announce stop
    announce-Shows Content peer filename content id created a b f (err e, u) reads holds kept q =
        absurd (cc q)
    announce-Shows Content peer filename content id created a b f (ok n, u) reads holds kept q =
        (n, filename, content, refl, reads, holds, kept n refl)

    refused_hash :
        (id : ℕ) (subdir : Bytes) (f : h.Files) (t : d.Tx)
        → (refuse_hash h d c dir id subdir f t).response ≢ some (Img.resp_sync_hash id true [])
    unfolding refuse_hash
    refused_hash id subdir f t q = cc q

    module _ (peer : Bytes) (id : ℕ) (hash : Bytes) (created : ℕ) where
      abbrev HasHash : Bytes → Type 0
      HasHash content = h.hash_text content ≡ hash

      same_hash :
          (subdir filename content : Bytes) (f : h.Files) (t : d.Tx)
          → bytes_beq (h.hash_text content) hash ≡ true
          → check_hash h d c dir peer id hash subdir filename created f t (some content)
            ≡ announce h d c dir
                (Img.resp_sync_hash id true [])
                f
                (update d (sync_hash d c peer id filename created) t)
      unfolding check_hash
      same_hash subdir filename content f t e = rw e

      other_hash :
          (subdir filename content : Bytes) (f : h.Files) (t : d.Tx)
          → bytes_beq (h.hash_text content) hash ≡ false
          → check_hash h d c dir peer id hash subdir filename created f t (some content)
            ≡ refuse_hash h d c dir id subdir (h.remove f filename) t
      unfolding check_hash
      other_hash subdir filename content f t e = rw e

      check-Shows :
          (subdir filename : Bytes) (f : h.Files) (t : d.Tx) (o : Option Bytes)
          → h.read_file f filename ≡ o
          → (check_hash h d c dir peer id hash subdir filename created f t o).response
            ≡ some (Img.resp_sync_hash id true [])
          → Shows HasHash peer id created
              (check_hash h d c dir peer id hash subdir filename created f t o)
      unfolding check_hash
      check-Shows subdir filename f t none e q = absurd (refused_hash id subdir f t q)
      check-Shows subdir filename f t (some content) e q =
          elim (Bool-cases (bytes_beq (h.hash_text content) hash)) [
            | inl same ↦
                (let run = same_hash subdir filename content f t same in
                  subst (Shows HasHash peer id created) (sym run) (
                    announce-Shows HasHash peer filename content id created _
                      (Img.resp_sync_hash id true []) f
                      (update d (sync_hash d c peer id filename created) t) e
                      ((bytes_beq_iff (h.hash_text content) hash).0 same)
                      (λ n r. sync_hash-Kept peer filename id created n t _ r)
                      (ap (λ o. o.response) (sym run) ∙ q)))
            | inr other ↦ absurd (
                refused_hash id subdir (h.remove f filename) t
                  (ap (λ o. o.response) (sym (other_hash subdir filename content f t other)) ∙ q))
          ]

      with_subdir-Shows :
          (ext : Bytes) (r : Result Bytes × h.Files × d.Tx)
          → (with_subdir h d c dir peer id ext hash created r).response
            ≡ some (Img.resp_sync_hash id true [])
          → Shows HasHash peer id created (with_subdir h d c dir peer id ext hash created r)
      unfolding with_subdir stop
      with_subdir-Shows ext (err e, f, t) q = absurd (cc q)
      with_subdir-Shows ext (ok subdir, f, t) q = check-Shows subdir _ f t _ refl q

      -- When syncHash answers that it has the image, it has announced a message, GetMessage under its
      -- number returns an image that names a file, the file's content has the hash that was asked for, and
      -- a question for the request's identifier is answered with yes.
      pub handle_sync_hash-Shows :
          (ext month : Bytes) (f : h.Files) (t : d.Tx)
          → (handle_sync_hash h d c dir peer id ext hash created month f t).response
            ≡ some (Img.resp_sync_hash id true [])
          → Shows HasHash peer id created
              (handle_sync_hash h d c dir peer id ext hash created month f t)
      unfolding handle_sync_hash
      handle_sync_hash-Shows ext month f t q =
          with_subdir-Shows ext (image_subdir h d c dir (hash ++ ext) month f t) q
