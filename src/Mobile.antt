-- ===== src/Mobile.antt =====
-- cmd/client/mobile/main.go: the objects that the SDK hands out. Its lists of messages and of peers are
-- objects linked by `next`, on a heap: an object is its place there. Numbers are printed and read by
-- strconv.
pub mod Links
pub mod Decimals
pub mod Deletion
pub mod Calls
pub mod Sdk
pub mod Starting
pub mod Pump
use chat_libp2p.Common.{
  ℕ, zero, suc, ◌+◌, ◌-◌, ◌*◌, ◌/◌, ◌%◌, ◌^◌, Bool, true, false, Option, none, some, List, [], ◌∷◌,
  ◌++◌, Bytes, length, get_elem?, ltb, leb, ◌&&◌, if◌then◌else◌, ◌==◌,
}
use chat_libp2p.Database.{Bolt, Result, ok, err, decode_error, get_bucket}
use chat_libp2p.Peers.{Peer, Codec, Listed}
use chat_libp2p.Messages.{Message, dialogue, del_messages}

pub record Node {ℓ} (A : Type ℓ) : Type ℓ where
  pub value : A
  pub next : Option ℕ

module _ {ℓ} {A : Type ℓ} where
  abbrev pub new_node : A → Node A
  new_node a = record { value = a; next = none }

  -- `message.next = …`, for the object at a place
  unfoldable pub set_next : ℕ → ℕ → List (Node A) → List (Node A)
  set_next i j [] = []
  set_next zero j (x ∷ xs) = record x { next = some j } ∷ xs
  set_next (suc i) j (x ∷ xs) = x ∷ set_next i j xs

  -- The rounds of a loop once there is a first object; `tail` is the last one.
  unfoldable pub link_rest : List A → List (Node A) → ℕ → List (Node A)
  unfolding set_next
  link_rest [] heap tail = heap
  link_rest (a ∷ as') heap tail =
      link_rest as' (set_next tail (length heap) (heap ++ new_node a ∷ [])) (length heap)

  -- The loop of Fetch and of GetPeerList: the heap, and the first object.
  unfoldable pub link : List A → List (Node A) × Option ℕ
  unfolding link_rest
  link [] = ([], none)
  link (a ∷ as') = (link_rest as' (new_node a ∷ []) 0, some 0)

  -- `for m := first; m != nil; m = m.Next()`, for at most `fuel` objects.
  unfoldable pub walk : ℕ → List (Node A) → Option ℕ → List A
  walk fuel heap none = []
  walk zero heap (some i) = []
  walk (suc fuel) heap (some i) = elim (get_elem? heap i) [
    | none ↦ []
    | some n ↦ n.value ∷ walk fuel heap n.next
  ]

-- strconv.FormatUint(n, 10); `fuel` digits are enough.
unfoldable pub digits : ℕ → ℕ → Bytes
digits zero n = []
digits (suc fuel) n =
    let front = digits fuel (n / 10) in
    if ltb n 10 then (b'0' + n) ∷ [] else front ++ (b'0' + n % 10) ∷ []

unfoldable pub format_uint : ℕ → Bytes
unfolding digits
format_uint n = digits 20 n

-- strconv.ParseUint(s, 10, 64); `none` is an error.
unfoldable pub is_digit : ℕ → Bool
is_digit b = leb b'0' b && leb b b'9'

unfoldable pub parse_digits : ℕ → Bytes → Option ℕ
unfolding is_digit
parse_digits n [] = some n
parse_digits n (b ∷ bs) =
    let rest = parse_digits (n * 10 + (b - b'0')) bs in
    if is_digit b then (if ltb (n * 10 + (b - b'0')) (2 ^ 64) then rest else none) else none

unfoldable pub parse_uint : Bytes → Option ℕ
unfolding parse_digits
parse_uint [] = none
parse_uint (b ∷ bs) = parse_digits 0 (b ∷ bs)

-- The fields of a Message object, without `next`.
pub record View : Type 0 where
  pub peer_id : Bytes
  pub id : Bytes
  pub mtype : Bytes
  pub payload : Bytes
  pub reached : Bool
  pub initiator : Bool
  pub created_at : ℕ
  pub ttl : ℕ

-- UnixMilli of a time, which is not negative.
abbrev pub unix_millis : ℕ → ℕ
unix_millis ns = ns / 1000000

-- Milliseconds of a duration, towards zero: from 2 ^ 63 on the word of 64 bits stands for a negative
-- number, in what is given and in what comes out.
unfoldable pub millis : ℕ → ℕ
millis w = if ltb w (2 ^ 63) then w / 1000000 else (2 ^ 64 - (2 ^ 64 - w) / 1000000) % 2 ^ 64

unfoldable pub view : Bytes → Message → View
unfolding format_uint millis
view peer m = record {
  peer_id = peer;
  id = format_uint m.id;
  mtype = m.mtype;
  payload = m.payload;
  reached = m.reached;
  initiator = m.initiator;
  created_at = unix_millis m.created_at;
  ttl = millis m.ttl;
}

abbrev pub views : Bytes → List Message → List View
views peer [] = []
views peer (m ∷ ms) = view peer m ∷ views peer ms

-- The loop of Session.Delete over the objects.
unfoldable pub parse_ids : List View → Option (List ℕ)
unfolding parse_uint
parse_ids [] = some []
parse_ids (v ∷ vs) = elim (parse_uint v.id) [
  | none ↦ none
  | some n ↦ elim (parse_ids vs) [ none ↦ none | some ns ↦ some (n ∷ ns) ]
]

module _ (d : Bolt) (c : Codec Message) where
  -- What GetLastMessages has in its list when it returns, with an error or without: the entries from
  -- the last one back to the first that does not decode, and whether it read them all.
  unfoldable pub read_back : List (Bytes × Bytes) → List Message × Bool
  read_back [] = ([], true)
  read_back ((k, v) ∷ rest) =
      let (ms, all) = read_back rest in
      if all
      then elim (c.decode v) [ none ↦ (ms, false) | some m ↦ (m ∷ ms, true) ]
      else (ms, false)

  unfoldable pub found_messages : Bytes → d.Tx → List Message
  unfolding read_back get_bucket
  found_messages peer t = elim (get_bucket d (dialogue peer) t) [
    | err e ↦ []
    | ok false ↦ []
    | ok true ↦ (read_back (d.cursor t (dialogue peer))).0
  ]

  -- Session.Fetch, which drops the error; `name` is the peer's identifier as text.
  unfoldable pub session_fetch :
      Bytes → Bytes → (offset limit : ℕ) → d.Tx → List (Node View) × Option ℕ
  unfolding found_messages link
  session_fetch peer name offset limit t = link (views name (found_messages peer t))

  -- Session.Delete of the objects from one on.
  unfoldable pub session_delete :
      Bytes → ℕ → List (Node View) → Option ℕ → d.Tx → Result (Unit {0}) × d.Tx
  unfolding walk parse_ids del_messages
  session_delete peer fuel heap first t = elim (parse_ids (walk fuel heap first)) [
    | none ↦ (err decode_error, t)
    | some ids ↦ del_messages d peer ids t
  ]
