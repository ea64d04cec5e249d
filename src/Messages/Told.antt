-- ===== src/Messages/Told.antt =====
-- internal/client/service/message.go: when AsyncSend tells the front end that a message arrived.
use chat_libp2p.Common.{ℕ, ◌≡◌, refl, ap, Bool, true, Option, none, some, Bytes}
use chat_libp2p.Database.{Bolt, Result, ok, err}
use chat_libp2p.Peers.{Codec}
use chat_libp2p.Text as Txt
use chat_libp2p.Image as Img
use chat_libp2p.Messages.{Message}
use chat_libp2p.Messages.Entries.{finish_send}
use chat_libp2p.Messages.Files.{Host}
use chat_libp2p.Messages.Ordering.{
  Ordered, ordered, request_error, order_panic, got_reply, notified, send_end,
}

pub was_replied : {A : Type 0} (o : Option A) → got_reply o ≡ ordered → (a : A) × (o ≡ some a)
was_replied none e = absurd (cc e)
was_replied (some a) e = (a, refl)

module _ {S : Type 0} (h : Host) (is_sep : ℕ → Bool)
    (ask_text : Txt.Action → S → S × Option Txt.Action)
    (ask_image : Img.Action → S → S × Option Img.Action) (d : Bolt) (c : Codec Message)
    (peer : Bytes) where
  told_ok :
      (r : Result (Unit {0}) × d.Tx) (v : d.Tx)
      → notified h is_sep ask_text ask_image d c peer true r ≡ (v, true)
      → r ≡ (ok tt, v)
  unfolding notified
  told_ok (ok x, t) v e = ap (λ p. (ok tt, p.0)) e
  told_ok (err x, t) v e = absurd (cc e)

  pub told_end :
      (id : ℕ) (o : Ordered) (t v : d.Tx)
      → send_end h is_sep ask_text ask_image d c peer id o t ≡ (v, true)
      → (o ≡ ordered) × (finish_send d c peer id t ≡ (ok tt, v))
  unfolding send_end
  told_end id ordered t v e = (refl, told_ok (finish_send d c peer id t) v e)
  told_end id request_error t v e = absurd (cc e)
  told_end id order_panic t v e = absurd (cc e)
