-- ===== src/Client/Listing.antt =====
-- The order of PeerList and of GetPeerList: internal/client/client.go and cmd/client/mobile/main.go.
use mathlib.Core.List.{Perm}
use chat_libp2p.Common.{
  ℕ, ◌≤◌, ◌≡◌, subst, arith, Bool, true, false, Option, none, some, List, [], ◌∷◌, map, Bytes,
  bytes_lt, All, map-All,
}
use chat_libp2p.Database.{Bolt, ok, bind_ok}
use chat_libp2p.Peers.{Peer, Codec, less, less_last, less_pin, find_all_without_local}
use chat_libp2p.Messages.{Message}
use chat_libp2p.Client.{Entry, last_time, listed, with_last, peer_list}

-- No later entry is less than an earlier one.
abbrev pub IsAscending : List Entry → Type 0
IsAscending [] = Unit {0}
IsAscending (e ∷ es) = All (λ f. less (listed f) (listed e) ≡ false) es × IsAscending es

-- What sort.Sort is documented to do.
pub record SortLaws (sort : List Entry → List Entry) : Type 0 where
  pub sort-perm : (es : List Entry) → Perm (sort es) es
  pub sort-IsAscending : (es : List Entry) → IsAscending (sort es)

-- How an earlier entry and a later one of the list compare: by their pins, the times of their last
-- messages, and their identifiers.
abbrev pub Ranks : Bool → Bool → Option ℕ → Option ℕ → Bytes → Bytes → Type 0
Ranks true false a b i j = Unit {0}
Ranks false true a b i j = ⊥
Ranks _ _ (some a) (some b) i j = b ≤ a
Ranks _ _ (some a) none i j = Unit {0}
Ranks _ _ none (some b) i j = ⊥
Ranks _ _ none none i j = bytes_lt j i ≡ false

abbrev pub Before : Entry → Entry → Type 0
Before e f =
    Ranks e.peer.pin f.peer.pin (last_time e.last_message) (last_time f.last_message) e.peer.id
      f.peer.id

-- Pinned peers come first; among the pinned ones, and among the others, those with a message come first,
-- the latest first, and then the others in the order of their identifiers.
abbrev pub IsRanked : List Entry → Type 0
IsRanked [] = Unit {0}
IsRanked (e ∷ es) = All (Before e) es × IsRanked es

ranks :
    (p q : Bool) (a b : Option ℕ) (i j : Bytes)
    → less_pin q p (less_last j i b a) ≡ false
    → Ranks p q a b i j
unfolding less_pin less_last
ranks true false a b i j h = tt
ranks false true a b i j h = cc h
ranks true true (some a) (some b) i j h = ground arith
ranks false false (some a) (some b) i j h = ground arith
ranks true true (some a) none i j h = tt
ranks false false (some a) none i j h = tt
ranks true true none (some b) i j h = cc h
ranks false false none (some b) i j h = cc h
ranks true true none none i j h = h
ranks false false none none i j h = h

less-Before : (e f : Entry) → less (listed f) (listed e) ≡ false → Before e f
unfolding less
less-Before e f h = ranks e.peer.pin f.peer.pin _ _ e.peer.id f.peer.id h

IsAscending-IsRanked : (es : List Entry) → IsAscending es → IsRanked es
IsAscending-IsRanked [] h = tt
IsAscending-IsRanked (e ∷ es) (h, hs) = (map-All es (less-Before e) h, IsAscending-IsRanked es hs)

module _ (d : Bolt) (c : Codec Message) (cp : Codec Peer) (decode_peer : Bytes → Option Bytes) where
  -- PeerList, when it returns no error, has each peer that the database holds but the program's own just
  -- as often as it is there, pinned peers first, then those with a message, the latest first.
  pub peer_list-IsRanked :
      (sort : List Entry → List Entry) (local_peer : Bytes) (t : d.Tx) (es : List Entry)
      → SortLaws sort
      → peer_list d c cp decode_peer sort local_peer t ≡ ok es
      → ((peers : List Peer) × (find_all_without_local d cp local_peer t ≡ ok peers)
          × Perm es (map (with_last d c cp decode_peer t) peers))
        × IsRanked es
  unfolding peer_list
  peer_list-IsRanked sort local_peer t es laws h =
      let (peers, found, sorted) = bind_ok (find_all_without_local d cp local_peer t) _ es h in
      let same : sort (map (with_last d c cp decode_peer t) peers) ≡ es = cc sorted in
      (
        (
          peers,
          found,
          subst (λ x. Perm x (map (with_last d c cp decode_peer t) peers)) same (laws.sort-perm _),
        ),
        subst IsRanked same (IsAscending-IsRanked _ (laws.sort-IsAscending _)),
      )
