-- ===== src/Messages/Answers.antt =====
-- internal/client/service/message.go: what syncHash may answer.
use chat_libp2p.Common.{
  ℕ, ◌≡◌, ◌⊎◌, refl, true, false, Option, none, some, [], ◌++◌, Bytes, bytes_beq, Bool-cases, inl,
  inr,
}
use chat_libp2p.Database.{Bolt, Result, ok, err, update}
use chat_libp2p.Peers.{Codec}
use chat_libp2p.Image as Img
use chat_libp2p.Messages.{Message}
use chat_libp2p.Messages.Entries.{sync_hash}
use chat_libp2p.Messages.Files.{
  Host, stop, announce, refuse_hash, check_hash, with_subdir, image_subdir, handle_sync_hash,
}

-- The answers that syncHash may give.
abbrev pub AnswersHash : ℕ → Option Img.Action → Type 0
AnswersHash id none = Unit {0}
AnswersHash id (some a) =
    (a ≡ Img.resp_sync_hash id true [])
    ⊎ ((subdir : Bytes) × (a ≡ Img.resp_sync_hash id false subdir))

module _ (d : Bolt) (c : Codec Message) (h : Host) (dir : Bytes) where
  announce-AnswersHash :
      (id : ℕ) (f : h.Files) (r : Result ℕ × d.Tx)
      → AnswersHash id (announce h d c dir (Img.resp_sync_hash id true []) f r).response
  unfolding announce stop
  announce-AnswersHash id f (ok n, t) = inl refl
  announce-AnswersHash id f (err e, t) = tt

  refuse-AnswersHash :
      (id : ℕ) (subdir : Bytes) (f : h.Files) (t : d.Tx)
      → AnswersHash id (refuse_hash h d c dir id subdir f t).response
  unfolding refuse_hash
  refuse-AnswersHash id subdir f t = inr (subdir, refl)

  check-AnswersHash :
      (peer hash subdir filename : Bytes) (id created : ℕ) (f : h.Files) (t : d.Tx)
      (o : Option Bytes)
      → AnswersHash id (check_hash h d c dir peer id hash subdir filename created f t o).response
  unfolding check_hash
  check-AnswersHash peer hash subdir filename id created f t none = refuse-AnswersHash id subdir f t
  check-AnswersHash peer hash subdir filename id created f t (some content) =
      elim (Bool-cases (bytes_beq (h.hash_text content) hash)) [
        | inl same ↦
            rw (same, check_hash)
              (announce-AnswersHash id f (update d (sync_hash d c peer id filename created) t))
        | inr other ↦ rw (other, check_hash) (refuse-AnswersHash id subdir (h.remove f filename) t)
      ]

  subdir-AnswersHash :
      (peer ext hash : Bytes) (id created : ℕ) (r : Result Bytes × h.Files × d.Tx)
      → AnswersHash id (with_subdir h d c dir peer id ext hash created r).response
  unfolding with_subdir stop
  subdir-AnswersHash peer ext hash id created (err e, f, t) = tt
  subdir-AnswersHash peer ext hash id created (ok subdir, f, t) =
      check-AnswersHash peer hash subdir _ id created f t (h.read_file f _)

  pub handle_sync_hash-AnswersHash :
      (peer ext hash month : Bytes) (id created : ℕ) (f : h.Files) (t : d.Tx)
      → AnswersHash id (handle_sync_hash h d c dir peer id ext hash created month f t).response
  unfolding handle_sync_hash
  handle_sync_hash-AnswersHash peer ext hash month id created f t =
      subdir-AnswersHash peer ext hash id created (image_subdir h d c dir (hash ++ ext) month f t)
