-- ===== src/Chat/TextDelivery.antt =====
-- A text message from one peer's dialogue to the other's.
use chat_libp2p.Common.{
  ℕ, ◌≡◌, ◌∙◌, ◌≤◌, ◌<◌, ◌^◌, refl, sym, ap, subst, arith, true, some, [], ◌∷◌, ◌++◌, Bytes, length,
  IsU64, ltb, if◌then◌else◌,
}
use mathlib.Core.List.{append-nil}
use mathlib.Core.Option.{some-injective}
use chat_libp2p.Frame.{Frame, new_frame, flag_data, encode}
use chat_libp2p.Streams.ReadLoop.{data_func, bulk, read_loop, read_loop-written}
use chat_libp2p.Exchange.{text_protocol, State, handle_data, enqueue, take_request, recv_buf_size}
use chat_libp2p.Text as Txt
use chat_libp2p.Text.RoundTrip.{parse-payload_bytes}
use chat_libp2p.Database.{Bolt, BoltLaws, Result, ok, err, update}
use chat_libp2p.Peers.{Peer, Codec, CodecLaws}
use chat_libp2p.Messages.{Message, exists_received}
use chat_libp2p.Messages.Entries.{sync_text, get_message}
use chat_libp2p.Messages.Delivery.{text_message, get_message-sync_text}
use chat_libp2p.Messages.Receive.{Saving, TextReply, text_reply, receive_text}
use chat_libp2p.Chat.{text_request, call, call_all, arrive}

-- A message whose fields fit the format and whose payload the runtime can make.
pub record IsSendable (alloc : ℕ) (m : Message) : Type 0 where
  pub id_fits : IsU64 m.id
  pub ttl_fits : IsU64 m.ttl
  pub payload_fits : length (Txt.payload_bytes (text_request m)) ≤ alloc
  pub size_fits : length (Txt.payload_bytes (text_request m)) < 2 ^ 64

one_frame :
    (alloc : ℕ) (frame : Frame) (m : Message)
    → IsSendable alloc m
    → (read_loop 2 alloc frame (Txt.frame_bytes (text_request m))).0
      ≡ data_func (Txt.payload_bytes (text_request m)) ∷ []
unfolding Txt.frame_bytes Txt.frame_flag text_request
one_frame alloc frame m v =
    let f = new_frame flag_data (Txt.payload_bytes (text_request m)) in
    ap (λ bs. (read_loop 2 alloc frame bs).0) (sym (append-nil (encode f)))
    ∙ ap (λ r. r.0)
        (read_loop-written alloc frame (bulk (Txt.payload_bytes (text_request m)) ∷ []) (
          record {
            flag_fits = omega arith;
            payload_fits = v.payload_fits;
            size_fits = v.size_fits;
          },
          tt,
        ))

taken :
    (sender : Bytes) (m : Message) (s : State Txt.Action)
    → IsU64 m.id
    → IsU64 m.ttl
    → call_all text_protocol sender (data_func (Txt.payload_bytes (text_request m)) ∷ []) s
      ≡ some (enqueue s sender (text_request m))
unfolding call_all call handle_data text_request
taken sender m s i t =
    rw
      (
        parse-payload_bytes (Txt.req_sync_text m.id m.ttl m.payload) (i, t),
        handle_data,
        call,
        call_all,
      )
      refl

queued_alone :
    (sender : Bytes) (a : Txt.Action) (s : State Txt.Action)
    → s.receiver ≡ []
    → enqueue s sender a ≡ record s { receiver = (sender, a) ∷ [] }
unfolding enqueue
queued_alone sender a s e =
    subst
      (λ q.
        (if ltb (length q) recv_buf_size then record s { receiver = q ++ (sender, a) ∷ [] } else s)
        ≡ record s { receiver = (sender, a) ∷ [] })
      (sym e) refl

first_in_queue :
    (sender : Bytes) (a : Txt.Action) (s : State Txt.Action)
    → s.receiver ≡ []
    → take_request (enqueue s sender a) ≡ some ((sender, a), record s { receiver = [] })
first_in_queue sender a s e =
    ap take_request (queued_alone sender a s e) ∙ unfold take_request in refl

module _ (d : Bolt) (w : BoltLaws d) (c : Codec Message) (l : CodecLaws c) (cp : Codec Peer)
    (local_peer local_evm : Bytes) (name : Bytes → Bytes) where
  abbrev pub Stores :
      Bytes → ℕ → Bytes → ℕ → ℕ → ℕ → TextReply d c cp local_peer local_evm name → Type 0
  Stores sender id content ttl created n r =
      (r.response ≡ some (Txt.resp_sync_text id true))
      × (get_message d c sender n r.tx ≡ ok (text_message content ttl created n))
      × (exists_received d sender id r.tx ≡ true)

  pub reply-Stores :
      (sender content : Bytes) (id ttl created now n : ℕ) (t : d.Tx) (r : Result ℕ × d.Tx)
      → update d (sync_text d c sender id ttl content created now) t ≡ r
      → (text_reply d c cp local_peer local_evm name (Txt.resp_sync_text id true) r).received
        ≡ some n
      → Stores sender id content ttl created n
          (text_reply d c cp local_peer local_evm name (Txt.resp_sync_text id true) r)
  unfolding text_reply
  reply-Stores sender content id ttl created now n t (err e, u) ran h = absurd (cc h)
  reply-Stores sender content id ttl created now n t (ok k, u) ran h =
      let same : k ≡ n = some-injective k n h in
      let kept =
        get_message-sync_text d w c l sender content id ttl created now n t u
          (ran ∙ ap (λ x. (ok x, u)) same) in
      (refl, kept.0, kept.1)

  -- A text message that one peer sends arrives: when its frame is read from the stream, the receiver's
  -- next request is the sender's with all that was sent, the request after whose handling a new message
  -- is announced is answered with yes, and GetMessage under the announced number then returns the text
  -- and the time to live that were sent, in the sender's dialogue, if the fields fit the format, the
  -- runtime can make the payload and no other request waits.
  pub text_delivered :
      (alloc : ℕ) (frame : Frame) (sender : Bytes) (m : Message) (s : State Txt.Action)
      (saving : Saving) (created now n : ℕ) (t : d.Tx)
      → IsSendable alloc m
      → s.receiver ≡ []
      → (receive_text d c cp local_peer local_evm name sender
          (text_request m)
          saving
          created
          now
          t).received
        ≡ some n
      → ((u : State Txt.Action) × (arrive text_protocol 2 alloc frame sender
              (Txt.frame_bytes (text_request m))
              s
            ≡ some u)
          × (take_request u ≡ some ((sender, text_request m), record s { receiver = [] })))
        × Stores sender m.id m.payload m.ttl created n (
            receive_text d c cp local_peer local_evm name sender
              (text_request m)
              saving
              created
              now
              t)
  unfolding arrive receive_text text_request
  text_delivered alloc frame sender m s saving created now n t v empty h = (
    (
      enqueue s sender (text_request m),
      ap (λ cs. call_all text_protocol sender cs s) (one_frame alloc frame m v)
          ∙ taken sender m s v.id_fits v.ttl_fits,
      first_in_queue sender (text_request m) s empty,
    ),
    reply-Stores sender m.payload m.id m.ttl created now n _ _ refl h,
  )
