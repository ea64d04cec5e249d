-- ===== src/Peers.antt =====
-- internal/client/service/peer.go and model/peer.go: what the program knows of each peer, in one
-- bucket. The gob encoding of a record is a parameter, a `Codec`.
pub mod Order
pub mod Locks
pub mod Records
use chat_libp2p.Common.{
  ℕ, Bool, true, false, Option, none, some, List, [], ◌∷◌, if◌then◌else◌, Bytes, bytes_beq,
  bytes_lt, ltb, lookup, insert, bytes_eq, ◌≡◌,
}
use chat_libp2p.Database.{
  Bolt, Result, Fault, ok, err, ◌>>=◌, or_fault, not_found, bolt_error, encode_error, decode_error,
  query_error, key_peer, get_bucket, get_or_new_bucket, update,
}

-- The fields that gob encodes.
pub record Peer : Type 0 where
  pub id : Bytes
  pub evm_addr : Bytes
  pub remark : Bytes
  pub pin : Bool

-- Encode and Decode; `none` is an error, and `leftover` is what a Decode that fails has filled in.
pub record Codec (A : Type 0) : Type 0 where
  pub encode : A → Option Bytes
  pub decode : Bytes → Option A
  pub leftover : Bytes → A

-- What is documented of gob: a value that was encoded decodes to itself.
pub record CodecLaws {A : Type 0} (c : Codec A) : Type 0 where
  pub decode-encode : (a : A) (bs : Bytes) → c.encode a ≡ some bs → c.decode bs ≡ some a

module _ (d : Bolt) (c : Codec Peer) where
  -- A bucket that is nil or cannot be named is reported as a missing peer.
  unfoldable pub find : Bytes → d.Tx → Result Peer
  unfolding get_bucket
  find peer t = elim (get_bucket d key_peer t) [
    | err e ↦ err not_found
    | ok false ↦ err not_found
    | ok true ↦ do
      buf ← or_fault not_found (d.get t key_peer peer)
      or_fault decode_error (c.decode buf)
  ]

  -- SetEVMAddr, SetRemark and SetPin: read the record, change one field, write it back.
  unfoldable pub set_in_tx : (Peer → Peer) → Bytes → d.Tx → Result (Unit {0} × d.Tx)
  unfolding get_or_new_bucket
  set_in_tx change peer t = do
    t1 ← get_or_new_bucket d key_peer t
    buf ← or_fault not_found (d.get t1 key_peer peer)
    p ← or_fault decode_error (c.decode buf)
    bytes ← or_fault encode_error (c.encode (change p))
    t2 ← or_fault bolt_error (d.put t1 key_peer peer bytes)
    ok (tt, t2)

  unfoldable pub set_evm_addr : Bytes → Bytes → d.Tx → Result (Unit {0}) × d.Tx
  unfolding update set_in_tx
  set_evm_addr peer evm = update d (set_in_tx (λ p. record p { evm_addr = evm }) peer)

  unfoldable pub set_remark : Bytes → Bytes → d.Tx → Result (Unit {0}) × d.Tx
  unfolding update set_in_tx
  set_remark peer remark = update d (set_in_tx (λ p. record p { remark = remark }) peer)

  unfoldable pub set_pin : Bytes → Bool → d.Tx → Result (Unit {0}) × d.Tx
  unfolding update set_in_tx
  set_pin peer pin = update d (set_in_tx (λ p. record p { pin = pin }) peer)

  -- The loop of FindAllWithoutLocal over the cursor, up to the first record that does not decode.
  unfoldable pub decode_peers : Bytes → List (Bytes × Bytes) → Result (List Peer)
  decode_peers local_peer [] = ok []
  decode_peers local_peer ((k, v) ∷ rest) =
      let others = decode_peers local_peer rest in
      if bytes_beq k local_peer
      then others
      else (do p ← or_fault decode_error (c.decode v); ps ← others; ok (p ∷ ps))

  unfoldable pub find_all_without_local : Bytes → d.Tx → Result (List Peer)
  unfolding get_bucket decode_peers
  find_all_without_local local_peer t = elim (get_bucket d key_peer t) [
    | err e ↦ ok []
    | ok false ↦ ok []
    | ok true ↦ decode_peers local_peer (d.cursor t key_peer)
  ]

  -- Save once it holds the peer's lock: `name` is the text of the identifier, and `queried` is what
  -- QueryEVM returns.
  module _ (local_peer local_evm name peer : Bytes) where
    abbrev pub blank : Peer
    blank = record { id = name; evm_addr = []; remark = []; pin = false }

    abbrev pub fresh : Peer
    fresh = if bytes_beq peer local_peer then record blank { evm_addr = local_evm } else blank

    -- The record that the transaction of Save leaves in its variable; an error of Decode is dropped.
    unfoldable pub save_data : d.Tx → Peer
    unfolding get_or_new_bucket
    save_data t = elim (get_or_new_bucket d key_peer t) [
      | err e ↦ blank
      | ok t1 ↦ elim (d.get t1 key_peer peer) [
        | none ↦ fresh
        | some val ↦ elim (c.decode val) [ none ↦ c.leftover val | some p ↦ p ]
      ]
    ]

    unfoldable pub save_in : d.Tx → Result (Unit {0} × d.Tx)
    unfolding get_or_new_bucket
    save_in t = do
      t1 ← get_or_new_bucket d key_peer t
      elim (d.get t1 key_peer peer) [
        | some val ↦ ok (tt, t1)
        | none ↦ do
          bytes ← or_fault encode_error (c.encode fresh)
          t2 ← or_fault bolt_error (d.put t1 key_peer peer bytes)
          ok (tt, t2)
      ]

    unfoldable pub save : Option Bytes → d.Tx → Result (Unit {0}) × d.Tx
    unfolding update save_in save_data set_evm_addr
    save queried t =
        let (r, u) = update d save_in t in
        if bytes_beq (save_data t).evm_addr []
        then elim queried [ none ↦ (err query_error, u) | some evm ↦ set_evm_addr peer evm u ]
        else (r, u)

-- Peers.Less of model/peer.go. `last` is the time of the last message, in nanoseconds.
pub record Listed : Type 0 where
  pub peer : Peer
  pub last : Option ℕ

unfoldable pub less_last : Bytes → Bytes → Option ℕ → Option ℕ → Bool
less_last i j none none = bytes_lt i j
less_last i j (some a) (some b) = ltb b a
less_last i j (some a) none = true
less_last i j none (some b) = false

unfoldable pub less_pin : Bool → Bool → Bool → Bool
less_pin true true later = later
less_pin false false later = later
less_pin true false later = true
less_pin false true later = false

unfoldable pub less : Listed → Listed → Bool
unfolding less_last less_pin
less p q = less_pin p.peer.pin q.peer.pin (less_last p.peer.id q.peer.id p.last q.last)
