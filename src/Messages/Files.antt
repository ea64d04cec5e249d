-- ===== src/Messages/Files.antt =====
-- internal/client/service/message.go: the handlers that work on image files: getSubdir with its
-- directory, syncHash, syncBytes and Send of an image. The file system, MIME detection and MD5 are a
-- parameter, a `Host`; `none` is an error. Paths are those of Unix.
use chat_libp2p.Common.{
  ℕ, ◌≡◌, Bool, true, false, Option, none, some, List, [], ◌∷◌, ◌++◌, ltb, if◌then◌else◌, Bytes,
  bytes_beq, take, drop, length,
}
use chat_libp2p.Common.Paths.{join}
use chat_libp2p.Database.{Bolt, Result, ok, err, codes, update, unsupported}
use chat_libp2p.Peers.{Codec}
use chat_libp2p.Image as Img
use chat_libp2p.Messages.{Message, type_image, get_subdir}
use chat_libp2p.Messages.Entries.{sync_hash, sync_bytes, send}

pub record Host : Type 1 where
  pub Files : Type 0
  pub read_file : Files → Bytes → Option Bytes
  pub write_file : Files → Bytes → Bytes → Option Files
  pub remove : Files → Bytes → Files
  pub make_dirs : Files → Bytes → Option Files
  -- os.IsNotExist of the error that os.Stat returns
  pub is_missing : Files → Bytes → Bool
  -- whether os.Stat returns no error
  pub stat_ok : Files → Bytes → Bool
  -- http.DetectContentType and mime.ExtensionsByType
  pub content_type : Bytes → Bytes
  pub extensions : Bytes → Option (List Bytes)
  -- the MD5 sum as hexadecimal digits
  pub hash_text : Bytes → Bytes

-- A file that was written is read as it was written.
pub record HostLaws (h : Host) : Type 0 where
  pub read-write :
      (f g : h.Files) (path bs : Bytes)
      → h.write_file f path bs ≡ some g
      → h.read_file g path ≡ some bs

abbrev pub image_prefix : Bytes
image_prefix = codes "image/"

-- The extension that is spelled like the subtype, or else the first.
unfoldable pub pick_ext : Bytes → Bytes → List Bytes → Bytes
pick_ext subtype first [] = first
pick_ext subtype first (e ∷ es) =
    let others = pick_ext subtype first es in
    if ltb 1 (length e) then (if bytes_beq (drop 1 e) subtype then e else others) else others

-- The extension of an image, or an error.
unfoldable pub image_ext : Host → Bytes → Option Bytes
unfolding pick_ext
image_ext h payload =
    let ct = h.content_type payload in
    if bytes_beq (take 6 ct) image_prefix
    then elim (h.extensions ct) [
      | none ↦ none
      | some [] ↦ none
      | some (e ∷ es) ↦ some (pick_ext (drop 6 ct) e (e ∷ es))
    ]
    else none

module _ (h : Host) (d : Bolt) (c : Codec Message) (dir : Bytes) where
  -- What a handler leaves: the files, the database, the response that it sends, and the number of the
  -- message that it announces.
  pub record Outcome : Type 0 where
    pub files : h.Files
    pub tx : d.Tx
    pub response : Option Img.Action
    pub received : Option ℕ

  unfoldable pub stop : h.Files → d.Tx → Outcome
  stop f t = record { files = f; tx = t; response = none; received = none }

  -- `getSubdir`, the directory included.
  unfoldable pub image_subdir : Bytes → Bytes → h.Files → d.Tx → Result Bytes × h.Files × d.Tx
  unfolding get_subdir
  image_subdir filebase month f t =
      let (r, u) = get_subdir d filebase month t in
      elim r [
        | err e ↦ (err e, f, u)
        | ok subdir ↦ elim (h.make_dirs f (join (dir ∷ subdir ∷ []))) [
          | none ↦ (err unsupported, f, u)
          | some g ↦ (ok subdir, g, u)
        ]
      ]

  -- The end of syncHash and of syncBytes, from the result of their transaction.
  unfoldable pub announce : Img.Action → h.Files → Result ℕ × d.Tx → Outcome
  unfolding stop
  announce response f (err e, u) = stop f u
  announce response f (ok n, u) = record {
    files = f;
    tx = u;
    response = some response;
    received = some n;
  }

  unfoldable pub refuse_hash : ℕ → Bytes → h.Files → d.Tx → Outcome
  refuse_hash id subdir f t = record {
    files = f;
    tx = t;
    response = some (Img.resp_sync_hash id false subdir);
    received = none;
  }

  -- syncHash once the file is read: `filename` is its path.
  unfoldable pub check_hash :
      Bytes → ℕ → Bytes → Bytes → Bytes → ℕ → h.Files → d.Tx → Option Bytes → Outcome
  unfolding announce refuse_hash
  check_hash peer id hash subdir filename created f t none = refuse_hash id subdir f t
  check_hash peer id hash subdir filename created f t (some content) =
      if bytes_beq (h.hash_text content) hash
      then announce (Img.resp_sync_hash id true []) f
          (update d (sync_hash d c peer id filename created) t)
      else refuse_hash id subdir (h.remove f filename) t

  unfoldable pub with_subdir :
      Bytes → ℕ → Bytes → Bytes → ℕ → Result Bytes × h.Files × d.Tx → Outcome
  unfolding check_hash stop
  with_subdir peer id ext hash created (err e, f, t) = stop f t
  with_subdir peer id ext hash created (ok subdir, f, t) =
      let filename = join (dir ∷ subdir ∷ (hash ++ ext) ∷ []) in
      check_hash peer id hash subdir filename created f t (h.read_file f filename)

  -- syncHash of a request with the hash and the extension of a file.
  unfoldable pub handle_sync_hash : Bytes → ℕ → Bytes → Bytes → ℕ → Bytes → h.Files → d.Tx → Outcome
  unfolding image_subdir with_subdir
  handle_sync_hash peer id ext hash created month f t =
      with_subdir peer id ext hash created (image_subdir (hash ++ ext) month f t)

  unfoldable pub write_image : Bytes → ℕ → Bytes → Bytes → ℕ → h.Files → d.Tx → Outcome
  unfolding announce stop
  write_image peer id filename payload created f t = elim (h.write_file f filename payload) [
    | none ↦ stop f t
    | some g ↦
        announce (Img.resp_sync_bytes id true) g
          (update d (sync_bytes d c peer id filename created) t)
  ]

  -- syncBytes once the directory was made, or not.
  unfoldable pub in_dir :
      Bytes → ℕ → Bytes → Bytes → ℕ → h.Files → d.Tx → Bytes → Option h.Files → Outcome
  unfolding write_image stop
  in_dir peer id subdir payload created f t ext none = stop f t
  in_dir peer id subdir payload created f t ext (some g) =
      write_image peer id (join (join (dir ∷ subdir ∷ []) ∷ (h.hash_text payload ++ ext) ∷ []))
        payload created g t

  unfoldable pub with_ext : Bytes → ℕ → Bytes → Bytes → ℕ → h.Files → d.Tx → Option Bytes → Outcome
  unfolding in_dir stop
  with_ext peer id subdir payload created f t none = stop f t
  with_ext peer id subdir payload created f t (some ext) =
      in_dir peer id subdir payload created f t ext (h.make_dirs f (join (dir ∷ subdir ∷ [])))

  -- syncBytes
  unfoldable pub handle_sync_bytes : Bytes → ℕ → Bytes → Bytes → ℕ → h.Files → d.Tx → Outcome
  unfolding image_ext with_ext
  handle_sync_bytes peer id subdir payload created f t =
      with_ext peer id subdir payload created f t (image_ext h payload)

  -- Send of an image, up to its transaction: the file's name in place of the payload.
  unfoldable pub image_file : Bytes → Bytes → h.Files → d.Tx → Result Bytes × h.Files × d.Tx
  unfolding image_ext image_subdir
  image_file payload month f t = elim (image_ext h payload) [
    | none ↦ (err unsupported, f, t)
    | some ext ↦
        (let name = h.hash_text payload ++ ext in
          let (r, g, u) = image_subdir name month f t in
          elim r [
            | err e ↦ (err e, g, u)
            | ok subdir ↦
                (let filename = join (dir ∷ subdir ∷ name ∷ []) in
                  if h.is_missing g filename
                  then elim (h.write_file g filename payload) [
                    | none ↦ (err unsupported, g, u)
                    | some g' ↦ (ok filename, g', u)
                  ]
                  else (ok filename, g, u))
          ])
  ]

  unfoldable pub send_image :
      Bytes → Bytes → Bytes → ℕ → ℕ → ℕ → h.Files → d.Tx → Result ℕ × h.Files × d.Tx
  unfolding image_file
  send_image peer payload month ttl created now f t =
      let (r, g, u) = image_file payload month f t in
      elim r [
        | err e ↦ (err e, g, u)
        | ok filename ↦
            (let (s, w) = update d (send d c peer type_image filename ttl created now) u in
              (s, g, w))
      ]
