-- ===== src/Mobile/Calls/Sent.antt =====
-- What the object shows that Send of a session leaves: cmd/client/mobile/main.go.
use chat_libp2p.Common.{
  ℕ, ◌*◌, ◌/◌, ◌^◌, ◌<◌, ◌≡◌, ◌∙◌, refl, sym, ap, subst, arith, true, false, Option, some, [],
  Bytes, put_be, lt→ltb,
}
use chat_libp2p.Database.{Bolt, BoltLaws, Result, ok, err}
use chat_libp2p.Peers.{Peer, Codec, CodecLaws}
use chat_libp2p.Messages.{Message, type_text, pending}
use chat_libp2p.Messages.Entries.{get_message}
use chat_libp2p.Messages.Delivery.{sent_message, get_message-send}
use chat_libp2p.Messages.Files.{Host}
use chat_libp2p.Client.{send_text}
use chat_libp2p.Mobile.{View, format_uint, millis}
use chat_libp2p.Mobile.Calls.{sent_view, nanoseconds, post, posted, read_again, session_send}

module _ (d : Bolt) (w : BoltLaws d) (c : Codec Message) (l : CodecLaws c) (cp : Codec Peer)
    (decode_peer : Bytes → Option Bytes) (h : Host) (image_dir : Bytes) where
  text_posted :
      (peer month : Bytes) (created now : ℕ) (v : View) (f : h.Files) (t : d.Tx)
      → v.mtype ≡ type_text
      → post d c cp decode_peer h image_dir peer month created now v f t ≡ (
          let (r, u) =
            send_text d c cp decode_peer peer v.payload (nanoseconds v.ttl) created now t in
          (r, f, u))
  unfolding post
  text_posted peer month created now v f t e = rw (e, post) refl

  read_ok :
      (v v' : View) (r : Result Message)
      → read_again d c cp decode_peer h image_dir v r ≡ ok v'
      → (m : Message) × (r ≡ ok m) × (sent_view v m ≡ v')
  unfolding read_again
  read_ok v v' (err e) q = cc q
  read_ok v v' (ok m) q = (m, refl, cc q)

  posted_ok :
      (peer : Bytes) (v v' : View) (r : Result ℕ) (f g : h.Files) (t u : d.Tx)
      → posted d c cp decode_peer h image_dir peer v (r, f, t) ≡ (ok v', g, u)
      → (mid : ℕ) × (r ≡ ok mid)
        × (t ≡ u)
        × (f ≡ g)
        × (read_again d c cp decode_peer h image_dir v (get_message d c peer mid u) ≡ ok v')
  unfolding posted
  posted_ok peer v v' (err e) f g t u q = cc q
  posted_ok peer v v' (ok mid) f g t u q =
      let same : t ≡ u = ap (λ x. x.2) q in
      (
        mid,
        refl,
        same,
        ap (λ x. x.1) q,
        subst
            (λ x. read_again d c cp decode_peer h image_dir v (get_message d c peer mid x) ≡ ok v')
            same (ap (λ x. x.0) q),
      )

  -- A time to live that is no more than a duration holds comes back in milliseconds.
  shown_ttl : (ms : ℕ) → ms * 1000000 < 2 ^ 63 → millis (ms * 1000000) ≡ ms
  unfolding millis
  shown_ttl ms h = rw (lt→ltb (ms * 1000000) (2 ^ 63) h) (omega arith)

  kept_ttl : (ms : ℕ) → ms * 1000000 < 2 ^ 63 → nanoseconds ms ≡ ms * 1000000
  kept_ttl ms h = omega (arith, h)

  -- Send of a session with a text whose time to live is less than 2 ^ 63 nanoseconds, when it returns no
  -- error, has stored the text under a number: GetMessage gives under that number a message of the program's
  -- own with the object's payload, its time to live in nanoseconds and the time of the call, not reached
  -- yet; the object has the number in decimal, is not reached and the initiator's, and has the time of the
  -- call in milliseconds, with its receiver, type, payload and time to live as they were; the number waits
  -- for AsyncSend, and no file has changed.
  pub session_send-sent_view :
      (peer month : Bytes) (created now : ℕ) (v v' : View) (f g : h.Files) (t u : d.Tx)
      → v.mtype ≡ type_text
      → v.ttl * 1000000 < 2 ^ 63
      → session_send d c cp decode_peer h image_dir peer month created now v f t ≡ (ok v', g, u)
      → (mid : ℕ) × (get_message d c peer mid u
          ≡ ok (record {
            id = mid;
            mtype = type_text;
            payload = v.payload;
            reached = false;
            initiator = true;
            created_at = created;
            ttl = v.ttl * 1000000;
          }))
        × (v' ≡ record {
          peer_id = v.peer_id;
          id = format_uint mid;
          mtype = type_text;
          payload = v.payload;
          reached = false;
          initiator = true;
          created_at = created / 1000000;
          ttl = v.ttl;
        })
        × (d.get u (pending peer) (put_be 8 mid) ≡ some [])
        × (f ≡ g)
  unfolding session_send send_text sent_view
  session_send-sent_view peer month created now v v' f g t u e fits q =
      let as_text =
        ap (posted d c cp decode_peer h image_dir peer v)
          (sym (text_posted peer month created now v f t e))
        ∙ q in
      let (mid, put, same, files, again) =
        posted_ok peer v v'
          (send_text d c cp decode_peer peer v.payload (nanoseconds v.ttl) created now t).0 f g
          (send_text d c cp decode_peer peer v.payload (nanoseconds v.ttl) created now t).1 u
          as_text in
      let stored =
        get_message-send d w c l peer type_text v.payload (nanoseconds v.ttl) created now mid t u
          (cc (put, same)) in
      let held : get_message d c peer mid u
          ≡ ok (sent_message type_text v.payload (v.ttl * 1000000) created mid) =
        subst
          (λ x. get_message d c peer mid u ≡ ok (sent_message type_text v.payload x created mid))
          (kept_ttl v.ttl fits) stored.0 in
      let (m, got, shown) = read_ok v v' (get_message d c peer mid u) again in
      let is_sent : m ≡ sent_message type_text v.payload (v.ttl * 1000000) created mid =
        cc (got, held) in
      let full = sym shown ∙ ap (sent_view v) is_sent in
      (
        mid,
        held,
        subst
            (λ x. v' ≡ record {
              peer_id = v.peer_id;
              id = format_uint mid;
              mtype = type_text;
              payload = v.payload;
              reached = false;
              initiator = true;
              created_at = created / 1000000;
              ttl = x;
            })
            (shown_ttl v.ttl fits) full,
        stored.1,
        files,
      )
