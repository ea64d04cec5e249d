-- ===== src/Examples/Delivery.antt =====
-- Messages that arrive, and messages that a front end deletes: internal/client/service/message.go,
-- internal/common/xrmmgr.go and cmd/client/mobile/main.go.
use chat_libp2p.Common.{
  ◌≡◌, refl, arith, true, false, some, [], ◌∷◌, Bytes, put_be, length, bytes_eq, All,
}
use chat_libp2p.Database.{
  ok, err, not_found, same_entry, suffix, get_bucket, get_or_new_bucket, ends_open, commit, update,
}
use chat_libp2p.Database.Table.{Tables, table_bolt, table_laws, empty_tables}
use chat_libp2p.Frame.{Frame, new_frame}
use chat_libp2p.Exchange.{State, new_state, take_request, text_protocol}
use chat_libp2p.Text as Txt
use chat_libp2p.Messages.{
  Message, dialogue, del_messages, del_in, delete_all, delete_ids, put_in, schedule, is_positive,
}
use chat_libp2p.Messages.Entries.{get_message, add_entry, sync_text}
use chat_libp2p.Messages.Receive.{saved_before, receive_text, text_reply, save_sender}
use chat_libp2p.Chat.{arrive, text_request}
use chat_libp2p.Chat.TextDelivery.{IsSendable, Stores, text_delivered}
use chat_libp2p.Mobile.{
  View, link, link_rest, view, format_uint, digits, parse_uint, parse_digits, is_digit, parse_ids,
  session_fetch, session_delete, found_messages, read_back,
}
use chat_libp2p.Mobile
use chat_libp2p.Mobile.Sdk.{Sdk, new_sdk, received, get_event}
use chat_libp2p.Mobile.Pump.{pump_received}
use chat_libp2p.Mobile.Pump.Handed.{IsShown, text_handed}
use chat_libp2p.Mobile.Deletion.{ids, HasId64, fetched_deleted}
use chat_libp2p.Examples.Storage.{after_text}
use chat_libp2p.Examples.Codecs.{peer_codec, message_codec, message_laws}

abbrev bob : Bytes
bob = 2 ∷ []

abbrev hello : Message
hello = record {
  id = 7;
  mtype = [];
  payload = 104 ∷ [];
  reached = false;
  initiator = true;
  created_at = 0;
  ttl = 60;
}

abbrev no_frame : Frame
no_frame = new_frame 0 []

hello-IsSendable : IsSendable 100 hello
unfolding text_request Txt.payload_bytes put_be
hello-IsSendable = record {
  id_fits = omega arith;
  ttl_fits = omega arith;
  payload_fits = omega arith;
  size_fits = omega arith;
}

abbrev pub named : Bytes → Bytes
named peer = 110 ∷ []

announced :
    (receive_text table_bolt message_codec peer_codec [] [] named bob
      (text_request hello)
      saved_before
      100
      101
      empty_tables).received
    ≡ some 1
unfolding receive_text text_reply save_sender text_request update commit sync_text add_entry put_in
    schedule is_positive get_or_new_bucket get_bucket ends_open suffix put_be
announced = refl

-- An SDK that has handed out one notifier.
abbrev listening : Sdk
listening = record new_sdk { notifiers = record { made = 1; halted = λ i. false; held = some 0 } }

text_handed_example :
    (v : View) × ((get_event 0 true (
        pump_received table_bolt message_codec named bob 1
          (receive_text table_bolt message_codec peer_codec [] [] named bob
            (Txt.req_sync_text 7 60 (104 ∷ []))
            saved_before
            100
            101
            empty_tables).tx
          listening)).0
      ≡ some (ok (received v)))
    × IsShown (named bob) (104 ∷ []) 1 v
unfolding text_request
text_handed_example =
    text_handed table_bolt table_laws message_codec message_laws peer_codec [] [] named bob
      (104 ∷ []) 7 60 100 101 1 0 saved_before true empty_tables listening announced refl
      (omega arith) refl

text_delivered_example :
    ((u : State Txt.Action) × (arrive text_protocol 2 100 no_frame bob
          (Txt.frame_bytes (text_request hello))
          new_state
        ≡ some u)
      × (take_request u
          ≡ some
              ((bob, text_request hello), record (new_state {A = Txt.Action}) { receiver = [] })))
    × Stores table_bolt table_laws message_codec message_laws peer_codec [] [] named bob 7
        (104 ∷ [])
        60
        100
        1
        (receive_text table_bolt message_codec peer_codec [] [] named bob
          (text_request hello)
          saved_before
          100
          101
          empty_tables)
text_delivered_example =
    text_delivered table_bolt table_laws message_codec message_laws peer_codec [] [] named 100
      no_frame bob hello new_state saved_before 100 101 1 empty_tables hello-IsSendable refl
      announced

small_ids : All HasId64 (found_messages table_bolt message_codec bob after_text)
unfolding found_messages read_back update commit sync_text add_entry put_in schedule is_positive
    get_or_new_bucket get_bucket ends_open suffix put_be
small_ids = (omega arith, tt)

abbrev emptied : Tables
emptied =
    (session_delete table_bolt message_codec bob
      (length (found_messages table_bolt message_codec bob after_text))
      (session_fetch table_bolt message_codec bob (50 ∷ []) 0 10 after_text).0
      (session_fetch table_bolt message_codec bob (50 ∷ []) 0 10 after_text).1 after_text).1

was_emptied :
    session_delete table_bolt message_codec bob
      (length (found_messages table_bolt message_codec bob after_text))
      (session_fetch table_bolt message_codec bob (50 ∷ []) 0 10 after_text).0
      (session_fetch table_bolt message_codec bob (50 ∷ []) 0 10 after_text).1
      after_text
    ≡ (ok tt, emptied)
unfolding session_delete session_fetch link link_rest Mobile.walk parse_ids view format_uint digits
    parse_uint parse_digits is_digit del_messages del_in delete_all delete_ids found_messages
    read_back update commit sync_text add_entry put_in schedule is_positive get_or_new_bucket
    get_bucket ends_open suffix put_be
was_emptied = refl

bob_closed : ends_open (dialogue bob) ≡ false
unfolding ends_open suffix
bob_closed = refl

fetched_deleted_example :
    All
      (λ id. get_message table_bolt message_codec bob id emptied ≡ err not_found)
      (ids (found_messages table_bolt message_codec bob after_text))
    × ((b k : Bytes)
        → All
            (λ id. same_entry (dialogue bob) (put_be 8 id) b k ≡ false)
            (ids (found_messages table_bolt message_codec bob after_text))
        → emptied.value b k ≡ after_text.value b k)
fetched_deleted_example =
    fetched_deleted table_bolt table_laws message_codec message_laws bob (50 ∷ []) 0 10 after_text
      after_text emptied bob_closed small_ids was_emptied
