-- ===== src/Client/Pictures.antt =====
-- Which images SendImage sends: internal/client/client.go.
use chat_libp2p.Common.{
  ℕ, zero, suc, ◌≡◌, ◌≢◌, ◌∙◌, refl, ap, subst, arith, true, Option, none, [], ◌∷◌, Bytes, length,
  take, ltb, All, take_all, Bool-cases, inl, inr,
}
use chat_libp2p.Common.Paths.{
  dir, dir_part, clean, separator, current_dir, split_path, join_parts, walk, backwards, is_rooted,
  leave,
}
use chat_libp2p.Database.{Bolt, err, unsupported}
use chat_libp2p.Peers.{Peer, Codec}
use chat_libp2p.Messages.{Message}
use chat_libp2p.Messages.Files.{Host}
use chat_libp2p.Client.{file_dir, image_payload, send_picture}

-- No byte of them is a slash.
abbrev pub HasNoSlash : Bytes → Type 0
HasNoSlash bs = All (λ b. b ≢ separator) bs

no_dir_part : (bs : Bytes) → HasNoSlash bs → dir_part bs ≡ []
unfolding dir_part
no_dir_part [] h = refl
no_dir_part (b ∷ bs) (n, ns) = rw (no_dir_part bs ns, dir_part) (ground arith)

here : (bs : Bytes) → HasNoSlash bs → dir bs ≡ current_dir
unfolding dir clean split_path join_parts walk backwards is_rooted leave
here bs h = ap clean (no_dir_part bs h) ∙ unfold clean in refl

HasNoSlash-take : (n : ℕ) (bs : Bytes) → HasNoSlash bs → HasNoSlash (take n bs)
HasNoSlash-take zero bs h = tt
HasNoSlash-take (suc n) [] h = tt
HasNoSlash-take (suc n) (b ∷ bs) (n', ns) = (n', HasNoSlash-take n bs ns)

module _ (d : Bolt) (c : Codec Message) (cp : Codec Peer) (decode_peer : Bytes → Option Bytes)
    (h : Host) (image_dir : Bytes) where
  file_dir-here :
      (payload : Bytes)
      → HasNoSlash (take 32 payload)
      → file_dir d c cp decode_peer h image_dir payload ≡ current_dir
  unfolding file_dir
  file_dir-here payload n = elim (Bool-cases (ltb 32 (length payload))) [
    | inl long ↦ rw long (here (take 32 payload) n)
    | inr short ↦ rw short (here payload (subst HasNoSlash (take_all 32 payload (ground arith)) n))
  ]

  -- SendImage of an image's bytes, of which the first 32 have no slash among them, is refused and changes
  -- nothing, if the current directory can be read and no file is named by these bytes: they are taken for
  -- a path.
  pub send_picture_refused :
      (peer payload month : Bytes) (created now : ℕ) (f : h.Files) (t : d.Tx)
      → HasNoSlash (take 32 payload)
      → h.stat_ok f current_dir ≡ true
      → h.read_file f payload ≡ none
      → send_picture d c cp decode_peer h image_dir peer payload month created now f t
        ≡ (err unsupported, f, t)
  unfolding send_picture image_payload
  send_picture_refused peer payload month created now f t n there missing =
      rw (file_dir-here payload n, there, missing, send_picture) refl
