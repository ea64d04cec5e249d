-- ===== src/Examples/Listing.antt =====
-- The peer list, a picture and two texts: internal/client/client.go, internal/client/service/message.go
-- and cmd/client/mobile/main.go.
use mathlib.Core.List.{Perm}
use chat_libp2p.Common.{
  ℕ, ◌≡◌, ◌≢◌, refl, arith, true, false, Option, none, some, List, [], ◌∷◌, map, Bytes,
  if◌then◌else◌, bytes_beq, lookup, put_be, length, take, All,
}
use chat_libp2p.Database.{
  ok, err, unsupported, codes, same_entry, suffix, get_bucket, get_or_new_bucket, ends_open, commit,
  update, key_peer,
}
use chat_libp2p.Database.Table.{Tables, table_bolt, table_laws, empty_tables}
use chat_libp2p.Peers.{Peer, find_all_without_local, decode_peers, less, less_last, less_pin}
use chat_libp2p.Messages.{put_in, schedule, is_positive, type_text, pending}
use chat_libp2p.Messages.Entries.{get_message, get_last_messages, sync_text, send, add_entry}
use chat_libp2p.Messages.Delivery.{text_message}
use chat_libp2p.Messages.Resent.{text_resent}
use chat_libp2p.Client.{Entry, with_last, first_message, peer_list, send_picture, send_text}
use chat_libp2p.Client.Listing.{IsRanked}
use chat_libp2p.Client.Pictures.{HasNoSlash, send_picture_refused}
use chat_libp2p.Mobile.{Node, View, link, link_rest, walk, format_uint, millis}
use chat_libp2p.Mobile.Calls.{
  PeerView, peer_view, sent_view, linked, get_peer_list, post, posted, read_again, session_send,
}
use chat_libp2p.Mobile.Calls.Shown.{get_peer_list-IsRanked, HasLast, IsShownList}
use chat_libp2p.Mobile.Calls.Sent.{session_send-sent_view}
use chat_libp2p.Examples.Codecs.{encode_peer, peer_codec, message_codec, message_laws}
use chat_libp2p.Examples.Images.{small_host}
use chat_libp2p.Examples.Sorting.{sorted, sorted_laws, insert_entry, place}

abbrev bob : Bytes
bob = 2 ∷ []

abbrev bob_record : Peer
bob_record = record { id = bob; evm_addr = 48 ∷ []; remark = []; pin = false }

abbrev carol_record : Peer
carol_record = record { id = 3 ∷ []; evm_addr = []; remark = []; pin = true }

-- The program's own record, bob and carol.
abbrev three_peers : Tables
three_peers = record {
  exists = λ c. bytes_beq key_peer c;
  sequence = λ b. 0;
  value = λ c j.
      if same_entry key_peer bob c j
      then some (encode_peer bob_record)
      else if same_entry key_peer (3 ∷ []) c j
      then some (encode_peer carol_record)
      else if same_entry key_peer (1 ∷ []) c j
      then some (encode_peer bob_record)
      else none;
  keys = (key_peer, 1 ∷ []) ∷ (key_peer, bob) ∷ (key_peer, 3 ∷ []) ∷ [];
}

abbrev named : Bytes → Option Bytes
named bs = some bs

abbrev heap : List (Node PeerView)
heap =
    (link (
      map peer_view (
        record { peer = carol_record; last_message = none }
        ∷ record { peer = bob_record; last_message = none }
        ∷ []))).0

two_linked :
    get_peer_list table_bolt message_codec peer_codec named sorted (1 ∷ []) three_peers
    ≡ ok (heap, some 0)
unfolding get_peer_list peer_list linked link link_rest sorted insert_entry place
    find_all_without_local decode_peers with_last first_message get_last_messages get_bucket
    ends_open suffix less less_pin less_last peer_view
two_linked = refl

get_peer_list-IsRanked_example :
    (es : List Entry) × (rows : List Entry) × (find_all_without_local table_bolt peer_codec
        (1 ∷ [])
        three_peers
      ≡ ok (map (λ e. e.peer) rows))
    × All (HasLast table_bolt message_codec peer_codec named three_peers) rows
    × Perm es rows
    × IsShownList es (walk (length es) heap (some 0))
    × IsRanked es
get_peer_list-IsRanked_example =
    get_peer_list-IsRanked table_bolt message_codec peer_codec named sorted (1 ∷ []) three_peers
      heap (some 0) sorted_laws two_linked

-- The same text twice.
abbrev once : Tables
once =
    (update table_bolt (sync_text table_bolt message_codec bob 7 60 (104 ∷ []) 100 101)
      empty_tables).1

abbrev twice : Tables
twice = (update table_bolt (sync_text table_bolt message_codec bob 7 60 (104 ∷ []) 200 201) once).1

first_stored :
    update table_bolt (sync_text table_bolt message_codec bob 7 60 (104 ∷ []) 100 101) empty_tables
    ≡ (ok 1, once)
unfolding update commit sync_text add_entry put_in schedule is_positive get_or_new_bucket get_bucket
    ends_open suffix put_be
first_stored = refl

second_stored :
    update table_bolt (sync_text table_bolt message_codec bob 7 60 (104 ∷ []) 200 201) once
    ≡ (ok 2, twice)
unfolding update commit sync_text add_entry put_in schedule is_positive get_or_new_bucket get_bucket
    ends_open suffix put_be
second_stored = refl

text_resent_example :
    (◌≢◌ {A = ℕ} 1 2)
    × (get_message table_bolt message_codec bob 1 twice ≡ ok (text_message (104 ∷ []) 60 100 1))
    × (get_message table_bolt message_codec bob 2 twice ≡ ok (text_message (104 ∷ []) 60 200 2))
text_resent_example =
    text_resent table_bolt table_laws message_codec message_laws bob (104 ∷ []) 7 60 100 101 200 201
      1 2 empty_tables once twice first_stored second_stored

-- The first bytes of a PNG file.
abbrev png : Bytes
png = 137 ∷ 80 ∷ 78 ∷ 71 ∷ []

png_without_slash : HasNoSlash (take 32 png)
png_without_slash = (
  λ e. omega (arith, e),
  (λ e. omega (arith, e), (λ e. omega (arith, e), (λ e. omega (arith, e), tt))),
)

send_picture_refused_example :
    send_picture table_bolt message_codec peer_codec named small_host
      (codes "/data")
      bob
      png
      (codes "202301")
      100
      101
      []
      empty_tables
    ≡ (err unsupported, [], empty_tables)
unfolding lookup
send_picture_refused_example =
    send_picture_refused table_bolt message_codec peer_codec named small_host (codes "/data") bob
      png (codes "202301") 100 101 [] empty_tables png_without_slash refl refl

abbrev blank_text : View
blank_text = record {
  id = [];
  peer_id = [];
  mtype = type_text;
  payload = 104 ∷ [];
  reached = false;
  initiator = false;
  created_at = 0;
  ttl = 3;
}

abbrev shown : View
shown = record blank_text { id = format_uint 1; initiator = true; created_at = 5; ttl = 3 }

abbrev after_post : Tables
after_post =
    (update table_bolt
      (send table_bolt message_codec bob type_text (104 ∷ []) 3000000 5000000 5000001)
      empty_tables).1

text_sent :
    session_send table_bolt message_codec peer_codec named small_host
      (codes "/data")
      bob
      (codes "202301")
      5000000
      5000001
      blank_text
      []
      empty_tables
    ≡ (ok shown, [], after_post)
unfolding session_send post posted read_again sent_view millis send_text update commit send
    add_entry put_in schedule is_positive get_or_new_bucket get_bucket ends_open suffix put_be
    get_message
text_sent = refl

session_send-sent_view_example :
    (mid : ℕ) × (get_message table_bolt message_codec bob mid after_post
      ≡ ok (record {
        id = mid;
        mtype = type_text;
        payload = 104 ∷ [];
        reached = false;
        initiator = true;
        created_at = 5000000;
        ttl = 3000000;
      }))
    × (shown ≡ record {
      peer_id = [];
      id = format_uint mid;
      mtype = type_text;
      payload = 104 ∷ [];
      reached = false;
      initiator = true;
      created_at = 5;
      ttl = 3;
    })
    × (table_bolt.get after_post (pending bob) (put_be 8 mid) ≡ some [])
    × (◌≡◌ {A = List (Bytes × Bytes)} [] [])
session_send-sent_view_example =
    session_send-sent_view table_bolt table_laws message_codec message_laws peer_codec named
      small_host (codes "/data") bob (codes "202301") 5000000 5000001 blank_text shown [] []
      empty_tables after_post refl (omega arith) text_sent
