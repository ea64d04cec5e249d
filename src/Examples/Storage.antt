-- ===== src/Examples/Storage.antt =====
-- A stored text and the destroy loop: internal/client/service/message.go.
use chat_libp2p.Common.{◌≡◌, refl, true, false, none, [], ◌∷◌, ◌++◌, Bytes, take, put_be, be_value}
use chat_libp2p.Database.{
  ok, suffix, key_destroy_msg, get_bucket, get_or_new_bucket, ends_open, commit, update,
}
use chat_libp2p.Database.Table.{Tables, table_bolt, table_laws, empty_tables}
use chat_libp2p.Messages.{
  type_text, dialogue, put_in, schedule, is_positive, has_bucket, is_past, destroy_entries,
  destroy_in, destroy_pass, delete_in,
}
use chat_libp2p.Messages.Entries.{add_entry, sync_text, send}
use chat_libp2p.Messages.Kept.{Stored}
use chat_libp2p.Messages.Delivery.{sent_message}
use chat_libp2p.Messages.Timer.{woken, over, destroy_loop}
use chat_libp2p.Messages.Timer.Idle.{destroy_loop_idle}
use chat_libp2p.Messages.Expiry.{destroy_pass_early}
use chat_libp2p.Examples.Codecs.{encode_message, message_codec, message_laws}

abbrev bob : Bytes
bob = 2 ∷ []

abbrev pub after_text : Tables
after_text =
    (update table_bolt (sync_text table_bolt message_codec bob 7 60 (104 ∷ []) 100 101)
      empty_tables).1

abbrev pub after_send : Tables
after_send =
    (update table_bolt (send table_bolt message_codec bob type_text (104 ∷ []) 0 100 101)
      empty_tables).1

pub sent_Stored :
    Stored table_bolt table_laws message_codec message_laws bob 1
      (sent_message type_text (104 ∷ []) 0 100 1)
      after_send
unfolding update commit send add_entry put_in schedule is_positive get_or_new_bucket get_bucket
    ends_open suffix put_be
sent_Stored = (
  encode_message (sent_message type_text (104 ∷ []) 0 100 1),
  record { closed = refl; there = refl; entry = refl },
  refl,
)

abbrev stamp : Bytes
stamp = put_be 8 161

abbrev planned : Bytes
planned = put_be 8 1 ++ bob

first_entry : table_bolt.cursor after_text key_destroy_msg ≡ (stamp, planned) ∷ []
unfolding update commit sync_text add_entry put_in schedule is_positive get_or_new_bucket get_bucket
    ends_open suffix put_be
first_entry = refl

past : is_past table_bolt 500 (be_value 0 (take 8 stamp)) ≡ true
unfolding is_past put_be be_value
past = refl

still_past : is_past table_bolt 600 (be_value 0 (take 8 stamp)) ≡ true
unfolding is_past put_be be_value
still_past = refl

future : is_past table_bolt 150 (be_value 0 (take 8 stamp)) ≡ false
unfolding is_past put_be be_value
future = refl

abbrev after_pass : Tables
after_pass = (destroy_pass table_bolt 150 after_text).1

has_plan : has_bucket table_bolt key_destroy_msg after_text ≡ true
unfolding has_bucket update commit sync_text add_entry put_in schedule is_positive get_or_new_bucket
    get_bucket ends_open suffix put_be
has_plan = refl

has_dialogue : has_bucket table_bolt (dialogue bob) after_text ≡ true
unfolding has_bucket update commit sync_text add_entry put_in schedule is_positive get_or_new_bucket
    get_bucket ends_open suffix put_be
has_dialogue = refl

passed : destroy_pass table_bolt 150 after_text ≡ (ok tt, after_pass)
unfolding destroy_pass destroy_in destroy_entries delete_in is_past be_value has_bucket update
    commit sync_text add_entry put_in schedule is_positive get_or_new_bucket get_bucket ends_open
    suffix put_be
passed = refl

destroy_pass_early_example : after_pass.value (dialogue bob) (put_be 8 1) ≡ none
destroy_pass_early_example =
    destroy_pass_early table_bolt table_laws after_text after_pass 150 1 stamp bob [] has_plan
      has_dialogue first_entry future passed

-- The entry is past at 500, and at 600 when the loop wakes up.
destroy_loop_idle_example :
    (destroy_loop table_bolt 500 (woken 600 (λ u. u) ∷ over ∷ []) after_text).1 ≡ after_text
destroy_loop_idle_example =
    destroy_loop_idle table_bolt (woken 600 (λ u. u) ∷ over ∷ []) 500 stamp after_text past
      (planned, [], first_entry) ((still_past, λ u h. h), (tt, tt))
