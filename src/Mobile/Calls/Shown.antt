-- ===== src/Mobile/Calls/Shown.antt =====
-- What the objects of GetPeerList show: cmd/client/mobile/main.go and internal/client/client.go.
use mathlib.Core.List.{Perm}
use chat_libp2p.Common.{
  ℕ, suc, ◌/◌, ◌≡◌, refl, sym, ap, subst, Option, none, some, List, [], ◌∷◌, map, Bytes, length,
  All, Option-cases, inl, inr,
}
use chat_libp2p.Database.{Bolt, Result, ok, err}
use chat_libp2p.Peers.{Peer, Codec, find_all_without_local}
use chat_libp2p.Messages.{Message}
use chat_libp2p.Messages.Entries.{get_last_messages}
use chat_libp2p.Client.{Entry, with_last, first_message, peer_list}
use chat_libp2p.Client.Listing.{SortLaws, IsRanked, peer_list-IsRanked}
use chat_libp2p.Mobile.{Node, View, format_uint, millis, view, link, walk}
use chat_libp2p.Mobile.Links.{walk-link}
use chat_libp2p.Mobile.Calls.{PeerView, peer_view, linked, get_peer_list}

-- The object of a peer shows a message, field by field.
pub record IsShownMessage (id : Bytes) (m : Message) (v : View) : Type 0 where
  pub peer_shown : v.peer_id ≡ id
  pub id_shown : v.id ≡ format_uint m.id
  pub mtype_shown : v.mtype ≡ m.mtype
  pub payload_shown : v.payload ≡ m.payload
  pub reached_shown : v.reached ≡ m.reached
  pub initiator_shown : v.initiator ≡ m.initiator
  pub created_shown : v.created_at ≡ m.created_at / 1000000
  pub ttl_shown : v.ttl ≡ millis m.ttl

abbrev pub IsShownLast : Bytes → Option Message → Option View → Type 0
IsShownLast id none none = Unit {0}
IsShownLast id (some m) (some v) = IsShownMessage id m v
IsShownLast id _ _ = ⊥

pub record IsShownEntry (e : Entry) (v : PeerView) : Type 0 where
  pub id_shown : v.id ≡ e.peer.id
  pub evm_addr_shown : v.evm_addr ≡ e.peer.evm_addr
  pub remark_shown : v.remark ≡ e.peer.remark
  pub pin_shown : v.pin ≡ e.peer.pin
  pub last_shown : IsShownLast e.peer.id e.last_message v.last_message

-- The objects show the entries, one each, in their order.
abbrev pub IsShownList : List Entry → List PeerView → Type 0
IsShownList [] [] = Unit {0}
IsShownList (e ∷ es) (v ∷ vs) = IsShownEntry e v × IsShownList es vs
IsShownList _ _ = ⊥

message_shown : (id : Bytes) (m : Message) → IsShownMessage id m (view id m)
unfolding view
message_shown id m = record {
  peer_shown = refl;
  id_shown = refl;
  mtype_shown = refl;
  payload_shown = refl;
  reached_shown = refl;
  initiator_shown = refl;
  created_shown = refl;
  ttl_shown = refl;
}

last_shown-elim :
    (id : Bytes) (o : Option Message)
    → IsShownLast id o (elim o [ none ↦ none | some m ↦ some (view id m) ])
last_shown-elim id none = tt
last_shown-elim id (some m) = message_shown id m

entry_shown : (e : Entry) → IsShownEntry e (peer_view e)
unfolding peer_view
entry_shown e = record {
  id_shown = refl;
  evm_addr_shown = refl;
  remark_shown = refl;
  pin_shown = refl;
  last_shown = last_shown-elim e.peer.id e.last_message;
}

list_shown : (es : List Entry) → IsShownList es (map peer_view es)
list_shown [] = tt
list_shown (e ∷ es) = (entry_shown e, list_shown es)

-- What PeerList may take for the last message when GetLastMessages returns a result: the first of the list,
-- and none when it is empty or there is an error.
abbrev pub IsFirst : Result (List Message) → Option Message → Type 0
IsFirst (err e) last = last ≡ none
IsFirst (ok []) last = last ≡ none
IsFirst (ok (m ∷ ms)) last = last ≡ some m

length-map {ℓ κ} :
    {A : Type ℓ} {B : Type κ} (f : A → B) (xs : List A) → length (map f xs) ≡ length xs
length-map f [] = refl
length-map f (x ∷ xs) = ap suc (length-map f xs)

module _ (d : Bolt) (c : Codec Message) (cp : Codec Peer) (decode_peer : Bytes → Option Bytes) where
  was_linked :
      (r : Result (List Entry)) (o : List (Node PeerView) × Option ℕ)
      → linked d c cp decode_peer r ≡ ok o
      → (es : List Entry) × (r ≡ ok es) × (link (map peer_view es) ≡ o)
  unfolding linked
  was_linked (err e) o h = cc h
  was_linked (ok es) o h = (es, refl, cc h)

  first_message-IsFirst :
      (r : Result (List Message)) → IsFirst r (first_message d c cp decode_peer r)
  unfolding first_message
  first_message-IsFirst (err e) = refl
  first_message-IsFirst (ok []) = refl
  first_message-IsFirst (ok (m ∷ ms)) = refl

  -- The argument is peer.Decode's result.
  abbrev pub IsLast : d.Tx → Option Bytes → Option Message → Type 0
  IsLast t none last = last ≡ none
  IsLast t (some id) last = IsFirst (get_last_messages d c id 0 1 t) last

  abbrev pub HasLast : d.Tx → Entry → Type 0
  HasLast t e = IsLast t (decode_peer e.peer.id) e.last_message

  with_last-peer : (t : d.Tx) (p : Peer) → (with_last d c cp decode_peer t p).peer ≡ p
  unfolding with_last
  with_last-peer t p = elim (Option-cases (decode_peer p.id)) [
    | inl e ↦ rw (e, with_last) refl
    | inr (id, e) ↦ rw (e, with_last) refl
  ]

  with_last-IsLast :
      (t : d.Tx) (p : Peer)
      → IsLast t (decode_peer p.id) (with_last d c cp decode_peer t p).last_message
  unfolding with_last
  with_last-IsLast t p = elim (Option-cases (decode_peer p.id)) [
    | inl e ↦ rw (e, with_last) refl
    | inr (id, e) ↦ rw (e, with_last) (first_message-IsFirst (get_last_messages d c id 0 1 t))
  ]

  rows_last :
      (t : d.Tx) (ps : List Peer) → All (HasLast t) (map (with_last d c cp decode_peer t) ps)
  rows_last t [] = tt
  rows_last t (p ∷ ps) =
      let e = with_last d c cp decode_peer t p in
      (
        subst (λ q. IsLast t (decode_peer q.id) e.last_message) (sym (with_last-peer t p))
            (with_last-IsLast t p),
        rows_last t ps,
      )

  rows_peers :
      (t : d.Tx) (ps : List Peer) → map (λ e. e.peer) (map (with_last d c cp decode_peer t) ps) ≡ ps
  rows_peers t [] = refl
  rows_peers t (p ∷ ps) = rw (with_last-peer t p) (ap (λ qs. p ∷ qs) (rows_peers t ps))

  -- The objects that GetPeerList links, walked from the first one on, show, field by field, a reordering of
  -- a list that has one entry for each record that FindAllWithoutLocal finds, in the order of those. The
  -- message of an entry is the first one that GetLastMessages gives for the peer, and none when
  -- peer.Decode or GetLastMessages fails or there is no message. In the order of the objects pinned peers
  -- come first, then those with a message, by that message's time, the latest first.
  pub get_peer_list-IsRanked :
      (sort : List Entry → List Entry) (local_peer : Bytes) (t : d.Tx) (heap : List (Node PeerView))
      (first : Option ℕ)
      → SortLaws sort
      → get_peer_list d c cp decode_peer sort local_peer t ≡ ok (heap, first)
      → (es : List Entry) × (rows : List Entry) × (find_all_without_local d cp local_peer t
          ≡ ok (map (λ e. e.peer) rows))
        × All (HasLast t) rows
        × Perm es rows
        × IsShownList es (walk (length es) heap first)
        × IsRanked es
  unfolding get_peer_list
  get_peer_list-IsRanked sort local_peer t heap first laws h =
      let (es, listed, same) =
        was_linked (peer_list d c cp decode_peer sort local_peer t) (heap, first) h in
      let ((peers, found, perm), ranked) =
        peer_list-IsRanked d c cp decode_peer sort local_peer t es laws listed in
      let walked : walk (length es) heap first ≡ map peer_view es =
        subst (λ o. walk (length es) o.0 o.1 ≡ map peer_view es) same
          (subst
            (λ n. walk n (link (map peer_view es)).0 (link (map peer_view es)).1 ≡ map peer_view es)
            (length-map peer_view es) (walk-link (map peer_view es))) in
      (
        es,
        map (with_last d c cp decode_peer t) peers,
        rw (rows_peers t peers) found,
        rows_last t peers,
        perm,
        subst (IsShownList es) (sym walked) (list_shown es),
        ranked,
      )
