-- ===== src/Examples/Receipts.antt =====
-- What a peer holds once the other's front end is told that a message arrived:
-- internal/client/service/message.go.
use chat_libp2p.Common.{
  ℕ, ◌≡◌, refl, true, Option, none, List, [], ◌∷◌, Bytes, put_be, lookup, insert, nat_eq, bytes_eq,
  Bool, ◌==◌,
}
use chat_libp2p.Common.Paths.{
  join, clean, split_path, join_parts, walk, leave, backwards, is_rooted, base, last_part,
  separator,
}
use chat_libp2p.Database.{
  ok, suffix, get_bucket, get_or_new_bucket, ends_open, commit, update, codes,
}
use chat_libp2p.Database.Table.{Tables, table_bolt, table_laws, empty_tables}
use chat_libp2p.Text as Txt
use chat_libp2p.Image as Img
use chat_libp2p.Chat.{replied, ask_text_peer, ask_peer}
use chat_libp2p.Chat.ImageDelivery.{Holds, Wanted, hash_of, image_delivered}
use chat_libp2p.Messages.{
  Message, type_text, type_image, pending, put_in, schedule, is_positive, get_subdir, stored_subdir,
}
use chat_libp2p.Messages.Entries.{
  get_message, add_entry, send, sync_bytes, finish_send, finish_send_in, mark_reached, decoded,
}
use chat_libp2p.Messages.Kept.{Stored}
use chat_libp2p.Messages.Delivery.{sent_message}
use chat_libp2p.Messages.Files.{
  handle_sync_hash, handle_sync_bytes, image_ext, pick_ext, image_subdir, check_hash, with_subdir,
  refuse_hash, announce, with_ext, in_dir, write_image,
}
use chat_libp2p.Messages.Receive.{saved_before, receive_image, save_sender}
use chat_libp2p.Messages.Ordering.{
  run_send, send_end, notified, order_message, order_image, hash_reply, after_hash, after_refusal,
  send_bytes,
}
use chat_libp2p.Examples.Codecs.{peer_codec, encode_message, message_codec, message_laws}
use chat_libp2p.Examples.Storage.{after_send}
use chat_libp2p.Examples.Delivery.{named}
use chat_libp2p.Examples.Images.{small_host, small_laws, dir, month}

abbrev alice : Bytes
alice = 1 ∷ []

abbrev bob : Bytes
bob = 2 ∷ []

abbrev is_slash : ℕ → Bool
is_slash b = b == separator

-- Bob's answers to a text of alice.
abbrev ask_bob : Txt.Action → Tables → Tables × Option Txt.Action
ask_bob =
    ask_text_peer table_bolt message_codec peer_codec [] [] named alice (λ a. replied)
      (λ a. saved_before) (λ a. 200) (λ a. 201)

abbrev hello : Message
hello = sent_message type_text (104 ∷ []) 0 100 1

abbrev after_hello : Tables × Tables × Bool
after_hello =
    run_send small_host is_slash ask_bob (λ a t. (t, none)) table_bolt message_codec bob [] hello
      empty_tables after_send

-- Alice's image, which bob does not have.
abbrev picture : Message
picture = sent_message type_image (codes "/img/ab.png") 0 100 1

abbrev own_images : List (Bytes × Bytes)
own_images = (codes "/img/ab.png", codes "xy") ∷ []

abbrev after_picture_sent : Tables
after_picture_sent =
    (update table_bolt
      (send table_bolt message_codec bob type_image (codes "/img/ab.png") 0 100 101) empty_tables).1

picture-Stored :
    Stored table_bolt table_laws message_codec message_laws bob 1 picture after_picture_sent
unfolding update commit send add_entry put_in schedule is_positive get_or_new_bucket get_bucket
    ends_open suffix put_be
picture-Stored =
    (encode_message picture, record { closed = refl; there = refl; entry = refl }, refl)

abbrev World : Type 0
World = List (Bytes × Bytes) × Tables

abbrev ask_bob_image : Img.Action → World → World × Option Img.Action
ask_bob_image =
    ask_peer table_bolt message_codec peer_codec [] [] named small_host dir alice month
      (λ a. replied) (λ a. saved_before) (λ a. 200)

abbrev no_text : Txt.Action → World → World × Option Txt.Action
no_text a s = (s, none)

abbrev after_picture : World × Tables × Bool
after_picture =
    run_send small_host is_slash no_text ask_bob_image table_bolt message_codec bob own_images
      picture ([], empty_tables) after_picture_sent

told_picture :
    ◌≡◌ {A = World × Tables × Bool} after_picture (after_picture.0, after_picture.1, true)
unfolding run_send send_end notified order_message order_image hash_reply after_hash after_refusal
    send_bytes ask_peer receive_image save_sender Img.new_req_sync_hash Img.ext Img.trim_suffix
    Img.response_ok base last_part handle_sync_hash image_subdir get_subdir stored_subdir
    with_subdir check_hash refuse_hash announce handle_sync_bytes with_ext in_dir write_image
    image_ext pick_ext join clean split_path join_parts walk leave backwards is_rooted insert lookup
    sync_bytes finish_send finish_send_in mark_reached decoded update commit send add_entry put_in
    schedule is_positive get_or_new_bucket get_bucket ends_open suffix put_be
told_picture = refl

image_delivered_example :
    Holds table_bolt table_laws message_codec message_laws peer_codec [] [] named small_host
      small_laws dir alice month
      (λ a. replied)
      (λ a. tt)
      (λ a. saved_before)
      (λ a. 200)
      (Wanted table_bolt table_laws message_codec message_laws peer_codec [] [] named small_host
        small_laws dir alice month
        (λ a. replied)
        (λ a. tt)
        (λ a. saved_before)
        (λ a. 200)
        is_slash
        no_text
        small_host
        own_images
        (codes "/img/ab.png")
        (hash_of table_bolt table_laws message_codec message_laws peer_codec [] [] named small_host
          small_laws dir alice month
          (λ a. replied)
          (λ a. tt)
          (λ a. saved_before)
          (λ a. 200)
          is_slash
          no_text
          small_host
          own_images
          (codes "/img/ab.png")))
      1
      after_picture.0
    × (get_message table_bolt message_codec bob 1 after_picture.1
        ≡ ok (record picture { reached = true }))
    × (after_picture.1.value (pending bob) (put_be 8 1) ≡ none)
image_delivered_example =
    image_delivered table_bolt table_laws message_codec message_laws peer_codec [] [] named
      small_host small_laws dir alice month (λ a. replied) (λ a. tt) (λ a. saved_before) (λ a. 200)
      is_slash no_text small_host own_images table_bolt table_laws message_codec message_laws bob
      picture ([], empty_tables) after_picture.0 after_picture_sent after_picture.1 refl
      picture-Stored told_picture
