-- ===== src/Chat/ImageDelivery.antt =====
-- A message that one peer is told has arrived, and what the other peer then holds.
use chat_libp2p.Common.{
  ℕ, ◌≡◌, ◌⊎◌, ◌∙◌, refl, sym, ap, subst, Bool, true, Option, none, some, [], put_be, Bytes,
  bytes_beq, if◌then◌else◌, inl, inr,
}
use chat_libp2p.Common.Paths.{base}
use chat_libp2p.Database.{Bolt, BoltLaws, ok}
use chat_libp2p.Peers.{Peer, Codec, CodecLaws}
use chat_libp2p.Text as Txt
use chat_libp2p.Image as Img
use chat_libp2p.Chat.{Fate, lost, unanswered, replied, foreign, IsOwnAnswer, image_fate, ask_peer}
use chat_libp2p.Messages.{Message, pending, type_text, type_image}
use chat_libp2p.Messages.Entries.{get_message}
use chat_libp2p.Messages.Files.{Host, HostLaws}
use chat_libp2p.Messages.Images.{Kept, handle_sync_hash-Shows}
use chat_libp2p.Messages.ImageBytes.{handle_sync_bytes-Shows}
use chat_libp2p.Messages.Kept.{Stored}
use chat_libp2p.Messages.Finish.{finish_send_lem}
use chat_libp2p.Messages.Answers.{AnswersHash, handle_sync_hash-AnswersHash}
use chat_libp2p.Messages.Told.{was_replied, told_end}
use chat_libp2p.Messages.Receive.{Saving, ImageReply, receive_image}
use chat_libp2p.Messages.Ordering.{
  Ordered, ordered, got_reply, send_bytes, after_refusal, after_hash, hash_reply, order_image,
  order_text, order_message, run_send,
}

module _ (d : Bolt) (w : BoltLaws d) (c : Codec Message) (l : CodecLaws c) (cp : Codec Peer)
    (local_peer local_evm : Bytes) (name : Bytes → Bytes) (h : Host) (laws : HostLaws h)
    (dir sender month : Bytes) (fate : Img.Action → Fate Img.Action)
    (own_answer : (a : Img.Action) → IsOwnAnswer (fate a)) (saving : Img.Action → Saving)
    (created : Img.Action → ℕ) where
  -- The files and the database of the peer that receives.
  abbrev pub World : Type 0
  World = h.Files × d.Tx

  -- The peer holds an image from the sender, which it knows as the request's.
  abbrev pub Holds : (Bytes → Type 0) → ℕ → World → Type 0
  Holds Content id u =
      (n : ℕ) × (at : ℕ) × (filename : Bytes) × (content : Bytes) × (h.read_file u.0 filename
        ≡ some content)
      × Content content
      × Kept d w c l sender id filename at n u.1

  abbrev ask_it : Img.Action → World → World × Option Img.Action
  ask_it = ask_peer d c cp local_peer local_evm name h dir sender month fate saving created

  answered_only :
      (k : Fate Img.Action) (r : ImageReply d c cp local_peer local_evm name h dir) (s : World)
      (a : Img.Action)
      → IsOwnAnswer k
      → (image_fate d c cp local_peer local_evm name h dir k r s).1 ≡ some a
      → (r.response ≡ some a)
        × ◌≡◌ {A = World}
            (image_fate d c cp local_peer local_evm name h dir k r s).0
            (r.files, r.tx)
  answered_only lost r s a own e = absurd (cc e)
  answered_only unanswered r s a own e = absurd (cc e)
  answered_only replied r s a own e = (e, refl)
  answered_only (foreign b x) r s a own e = elim own [ ]

  -- An answer to a request with the bytes of an image.
  bytes_held :
      (id : ℕ) (subdir payload : Bytes) (s : World) (a : Img.Action)
      → (ask_it (Img.req_sync_bytes id subdir payload) s).1 ≡ some a
      → Holds (λ content. content ≡ payload) id (ask_it (Img.req_sync_bytes id subdir payload) s).0
  unfolding ask_peer receive_image
  bytes_held id subdir payload (f, t) a e =
      let req = Img.req_sync_bytes id subdir payload in
      let r =
        receive_image d c cp local_peer local_evm name h dir sender req (saving req) (created req)
          month f t in
      let (said, now) = answered_only (fate req) r (f, t) a (own_answer req) e in
      let (n, filename, content, told, there, same, kept) =
        handle_sync_bytes-Shows d w c l h dir sender subdir payload id (created req) f t a laws
          said in
      subst (Holds (λ x. x ≡ payload) id) (sym now)
        (n, created req, filename, content, there, same, kept)

  hash_answers :
      (id : ℕ) (ext hash : Bytes) (s : World) (a : Img.Action)
      → (ask_it (Img.req_sync_hash id ext hash) s).1 ≡ some a
      → AnswersHash id (some a)
  unfolding ask_peer receive_image
  hash_answers id ext hash (f, t) a e =
      let req = Img.req_sync_hash id ext hash in
      let r =
        receive_image d c cp local_peer local_evm name h dir sender req (saving req) (created req)
          month f t in
      subst (AnswersHash id) (answered_only (fate req) r (f, t) a (own_answer req) e).0
        (handle_sync_hash-AnswersHash d c h dir sender ext hash month id (created req) f _)

  -- The answer that the image is there already.
  hash_held :
      (id : ℕ) (ext hash : Bytes) (s : World)
      → (ask_it (Img.req_sync_hash id ext hash) s).1 ≡ some (Img.resp_sync_hash id true [])
      → Holds
          (λ content. h.hash_text content ≡ hash)
          id
          (ask_it (Img.req_sync_hash id ext hash) s).0
  unfolding ask_peer receive_image
  hash_held id ext hash (f, t) e =
      let req = Img.req_sync_hash id ext hash in
      let r =
        receive_image d c cp local_peer local_evm name h dir sender req (saving req) (created req)
          month f t in
      let (said, now) =
        answered_only (fate req) r (f, t) (Img.resp_sync_hash id true []) (own_answer req) e in
      let (n, filename, content, told, there, same, kept) =
        handle_sync_hash-Shows d w c l h dir sender id hash (created req) ext month f _ said in
      subst (Holds (λ x. h.hash_text x ≡ hash) id) (sym now)
        (n, created req, filename, content, there, same, kept)

  module _ (is_sep : ℕ → Bool) (ask_text : Txt.Action → World → World × Option Txt.Action)
      (own : Host) (own_files : own.Files) where
    -- What the sender wants the other peer to hold: a file with the content of its own, or one with its hash.
    abbrev pub Wanted : Bytes → Bytes → Bytes → Type 0
    Wanted path hash content =
        (h.hash_text content ≡ hash) ⊎ (own.read_file own_files path ≡ some content)

    bytes_sent :
        (id : ℕ) (subdir path hash : Bytes) (o : Option Bytes) (s u : World)
        → own.read_file own_files path ≡ o
        → send_bytes own is_sep ask_text ask_it id subdir o s ≡ (u, ordered)
        → Holds (Wanted path hash) id u
    unfolding send_bytes
    bytes_sent id subdir path hash none s u file e = absurd (cc e)
    bytes_sent id subdir path hash (some payload) s u file e =
        let req = Img.req_sync_bytes id subdir payload in
        let now : (ask_it req s).0 ≡ u = ap (λ p. p.0) e in
        let replied' : got_reply (ask_it req s).1 ≡ ordered = ap (λ p. p.1) e in
        let (a, said) = was_replied (ask_it req s).1 replied' in
        let (n, at, filename, content, there, same, kept) =
          subst (Holds (λ x. x ≡ payload) id) now (bytes_held id subdir payload s a said) in
        (n, at, filename, content, there, inr (file ∙ ap some (sym same)), kept)

    answered_hash :
        (id : ℕ) (path hash : Bytes) (s u : World) (a : Img.Action)
        → AnswersHash id (some a)
        → (a ≡ Img.resp_sync_hash id true [] → Holds (λ content. h.hash_text content ≡ hash) id s)
        → after_hash own is_sep ask_text ask_it id
            (own.read_file own_files path)
            (Img.response_ok a)
            a
            s
          ≡ (u, ordered)
        → Holds (Wanted path hash) id u
    unfolding after_hash after_refusal Img.response_ok
    answered_hash id path hash s u a (inl there) held e =
        let e' : ◌≡◌ {A = World × Ordered} (s, ordered) (u, ordered) =
          subst
            (λ x.
              after_hash own is_sep ask_text ask_it id (own.read_file own_files path)
                (Img.response_ok x) x s
              ≡ (u, ordered))
            there e in
        let (n, at, filename, content, file, same, kept) =
          subst (Holds (λ x. h.hash_text x ≡ hash) id) (ap (λ p. p.0) e') (held there) in
        (n, at, filename, content, file, inl same, kept)
    answered_hash id path hash s u a (inr (subdir, missing)) held e =
        bytes_sent id subdir path hash (own.read_file own_files path) s u refl (
          subst
            (λ x.
              after_hash own is_sep ask_text ask_it id (own.read_file own_files path)
                (Img.response_ok x) x s
              ≡ (u, ordered))
            missing e)

    hash_sent :
        (id : ℕ) (path hash : Bytes) (r : World × Option Img.Action) (u : World)
        → ((a : Img.Action) → r.1 ≡ some a → AnswersHash id (some a))
        → (r.1 ≡ some (Img.resp_sync_hash id true [])
            → Holds (λ content. h.hash_text content ≡ hash) id r.0)
        → hash_reply own is_sep ask_text ask_it id (own.read_file own_files path) r ≡ (u, ordered)
        → Holds (Wanted path hash) id u
    unfolding hash_reply
    hash_sent id path hash (s, none) u answers held e = absurd (cc e)
    hash_sent id path hash (s, some a) u answers held e =
        answered_hash id path hash s u a (answers a refl) (λ same. held (ap some same)) e

    -- The hash that the name of an image's file begins with.
    abbrev pub hash_of : Bytes → Bytes
    hash_of path = Img.trim_suffix (base path) (Img.ext is_sep (base path))

    image_sent :
        (id : ℕ) (path : Bytes) (s u : World)
        → order_image own is_sep ask_text ask_it own_files id path s ≡ (u, ordered)
        → Holds (Wanted path (hash_of path)) id u
    unfolding order_image Img.new_req_sync_hash
    image_sent id path s u e =
        let ext = Img.ext is_sep (base path) in
        hash_sent id path (hash_of path) (ask_it (Img.req_sync_hash id ext (hash_of path)) s) u
          (hash_answers id ext (hash_of path) s) (hash_held id ext (hash_of path) s) e

    sent_image :
        (m : Message) (s u : World)
        → m.mtype ≡ type_image
        → order_message own is_sep ask_text ask_it own_files m s ≡ (u, ordered)
        → order_image own is_sep ask_text ask_it own_files m.id m.payload s ≡ (u, ordered)
    unfolding order_message
    sent_image m s u image e =
        subst
          (λ x.
            (if bytes_beq x type_text
              then order_text own is_sep ask_text ask_it m.id m.ttl m.payload s
              else if bytes_beq x type_image
              then order_image own is_sep ask_text ask_it own_files m.id m.payload s
              else (s, ordered))
            ≡ (u, ordered))
          image e

    module _ (d1 : Bolt) (w1 : BoltLaws d1) (c1 : Codec Message) (l1 : CodecLaws c1)
        (peer : Bytes) where
      -- If what Request returns is always the asked peer's own answer to the request, and no response of another
      -- peer or of an older request with the same identifier, then, once the front end is told that an image
      -- arrived, the receiving peer holds it: under some number of
      -- its dialogue with the sender, GetMessage returns an image that names a file, and the file has the
      -- content of the sender's or the hash that the sender's file is named after; a question for the
      -- message is answered with yes. The sender has it marked as reached, with nothing else of it changed,
      -- and no longer among those to send. That is so whatever requests and responses the network loses.
      pub image_delivered :
          (m : Message) (s u : World) (t v : d1.Tx)
          → m.mtype ≡ type_image
          → Stored d1 w1 c1 l1 peer m.id m t
          → run_send own is_sep ask_text ask_it d1 c1 peer own_files m s t ≡ (u, v, true)
          → Holds (Wanted m.payload (hash_of m.payload)) m.id u
            × (get_message d1 c1 peer m.id v ≡ ok (record m { reached = true }))
            × (d1.get v (pending peer) (put_be 8 m.id) ≡ none)
      unfolding run_send
      image_delivered m s u t v image stored e =
          let r = order_message own is_sep ask_text ask_it own_files m s in
          let now : r.0 ≡ u = ap (λ p. p.0) e in
          let (done, finished) =
            told_end own is_sep ask_text ask_it d1 c1 peer m.id r.1 t v (ap (λ p. (p.1, p.2)) e) in
          let sent =
            image_sent m.id m.payload s u
              (sent_image m s u image (ap (λ x. (r.0, x)) done ∙ ap (λ x. (x, ordered)) now)) in
          let (marked, gone) = finish_send_lem d1 w1 c1 l1 peer m.id m t v stored finished in
          (sent, marked, gone)
