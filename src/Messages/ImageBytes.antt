-- ===== src/Messages/ImageBytes.antt =====
-- What syncBytes of internal/client/service/message.go has done when it answers.
use chat_libp2p.Common.{
  ℕ, ◌≡◌, ◌∙◌, refl, sym, ap, subst, true, Option, none, some, Bytes, Option-cases, inl, inr,
}
use chat_libp2p.Database.{Bolt, BoltLaws, update}
use chat_libp2p.Peers.{Codec, CodecLaws}
use chat_libp2p.Image as Img
use chat_libp2p.Messages.{Message}
use chat_libp2p.Messages.Entries.{sync_bytes}
use chat_libp2p.Messages.Files.{
  Host, HostLaws, stop, announce, write_image, handle_sync_bytes, image_ext, in_dir, with_ext,
}
use chat_libp2p.Messages.Images.{Shows, announce-Shows, sync_bytes-Kept}

module _ (d : Bolt) (w : BoltLaws d) (c : Codec Message) (l : CodecLaws c) (h : Host)
    (dir : Bytes) where
  stopped : (f : h.Files) (t : d.Tx) → (stop h d c dir f t).response ≡ none
  unfolding stop
  stopped f t = refl

  unwritten :
      (peer filename payload : Bytes) (id created : ℕ) (f : h.Files) (t : d.Tx)
      → h.write_file f filename payload ≡ none
      → write_image h d c dir peer id filename payload created f t ≡ stop h d c dir f t
  unfolding write_image
  unwritten peer filename payload id created f t e = rw (e, write_image) refl

  was_written :
      (peer filename payload : Bytes) (id created : ℕ) (f g : h.Files) (t : d.Tx)
      → h.write_file f filename payload ≡ some g
      → write_image h d c dir peer id filename payload created f t
        ≡ announce h d c dir
            (Img.resp_sync_bytes id true)
            g
            (update d (sync_bytes d c peer id filename created) t)
  unfolding write_image
  was_written peer filename payload id created f g t e = rw (e, write_image) refl

  write_image-Shows :
      (peer filename payload : Bytes) (id created : ℕ) (f : h.Files) (t : d.Tx) (a : Img.Action)
      → HostLaws h
      → (write_image h d c dir peer id filename payload created f t).response ≡ some a
      → Shows d w c l h dir
          (λ content. content ≡ payload)
          peer
          id
          created
          (write_image h d c dir peer id filename payload created f t)
  write_image-Shows peer filename payload id created f t a laws q =
      elim (Option-cases (h.write_file f filename payload)) [
        | inl failed ↦ absurd (
            cc (
              ap (λ o. o.response) (sym (unwritten peer filename payload id created f t failed))
                  ∙ q,
              stopped f t,
            ))
        | inr (g, wrote) ↦
            (let run = was_written peer filename payload id created f g t wrote in
              subst (Shows d w c l h dir (λ content. content ≡ payload) peer id created) (sym run) (
                announce-Shows d w c l h dir (λ content. content ≡ payload) peer filename payload id
                  created _ a g (update d (sync_bytes d c peer id filename created) t)
                  (laws.read-write f g filename payload wrote) refl
                  (λ n r. sync_bytes-Kept d w c l peer filename id created n t _ r)
                  (ap (λ o. o.response) (sym run) ∙ q)))
      ]

  in_dir-Shows :
      (peer subdir payload ext : Bytes) (id created : ℕ) (f : h.Files) (t : d.Tx) (a : Img.Action)
      (o : Option h.Files)
      → HostLaws h
      → (in_dir h d c dir peer id subdir payload created f t ext o).response ≡ some a
      → Shows d w c l h dir
          (λ content. content ≡ payload)
          peer
          id
          created
          (in_dir h d c dir peer id subdir payload created f t ext o)
  unfolding in_dir
  in_dir-Shows peer subdir payload ext id created f t a none laws q = absurd (cc (q, stopped f t))
  in_dir-Shows peer subdir payload ext id created f t a (some g) laws q =
      write_image-Shows peer _ payload id created g t a laws q

  with_ext-Shows :
      (peer subdir payload : Bytes) (id created : ℕ) (f : h.Files) (t : d.Tx) (a : Img.Action)
      (o : Option Bytes)
      → HostLaws h
      → (with_ext h d c dir peer id subdir payload created f t o).response ≡ some a
      → Shows d w c l h dir
          (λ content. content ≡ payload)
          peer
          id
          created
          (with_ext h d c dir peer id subdir payload created f t o)
  unfolding with_ext
  with_ext-Shows peer subdir payload id created f t a none laws q = absurd (cc (q, stopped f t))
  with_ext-Shows peer subdir payload id created f t a (some ext) laws q =
      in_dir-Shows peer subdir payload ext id created f t a _ laws q

  -- When syncBytes answers, it has announced a message, GetMessage under its number returns an image that
  -- names a file, the file's content is the payload of the request, and a question for the request's
  -- identifier is answered with yes.
  pub handle_sync_bytes-Shows :
      (peer subdir payload : Bytes) (id created : ℕ) (f : h.Files) (t : d.Tx) (a : Img.Action)
      → HostLaws h
      → (handle_sync_bytes h d c dir peer id subdir payload created f t).response ≡ some a
      → Shows d w c l h dir
          (λ content. content ≡ payload)
          peer
          id
          created
          (handle_sync_bytes h d c dir peer id subdir payload created f t)
  unfolding handle_sync_bytes
  handle_sync_bytes-Shows peer subdir payload id created f t a laws q =
      with_ext-Shows peer subdir payload id created f t a (image_ext h payload) laws q
