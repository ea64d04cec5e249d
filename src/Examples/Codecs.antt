-- ===== src/Examples/Codecs.antt =====
-- Two codecs that meet their law, in place of gob: internal/client/service/model.
use chat_libp2p.Common.{
  ℕ, ◌≡◌, ◌∙◌, refl, sym, ap, Bool, true, false, Option, some, none, [], ◌∷◌, ◌++◌, ◌==◌, Bytes,
  length, take, drop, take-append, drop-append, if◌then◌else◌,
}
use mathlib.Core.Option.{some-injective}
use chat_libp2p.Peers.{Peer, Codec, CodecLaws}
use chat_libp2p.Messages.{Message}
use chat_libp2p.Messages.Delivery.{text_message}

-- A codec of records that meets the law: the lengths of the parts, and the parts.
abbrev pub bit : Bool → ℕ
bit b = if b then 1 else 0

bit_back : (b : Bool) → (bit b == 1) ≡ b
bit_back true = refl
bit_back false = refl

abbrev pub decode_peer : Bytes → Option Peer
decode_peer (a ∷ b ∷ c ∷ rest) = some (record {
  id = take a rest;
  evm_addr = take b (drop a rest);
  remark = drop b (drop a rest);
  pin = c == 1;
})
decode_peer _ = none

abbrev pub encode_peer : Peer → Bytes
encode_peer p = length p.id ∷ length p.evm_addr ∷ bit p.pin ∷ (p.id ++ (p.evm_addr ++ p.remark))

abbrev pub no_peer : Peer
no_peer = record { id = []; evm_addr = []; remark = []; pin = false }

abbrev pub peer_codec : Codec Peer
peer_codec = record {
  encode = λ p. some (encode_peer p);
  decode = decode_peer;
  leftover = λ bs. no_peer;
}

decode-encode_peer : (p : Peer) → decode_peer (encode_peer p) ≡ some p
decode-encode_peer p =
    rw
      (
        take-append (length p.id) p.id (p.evm_addr ++ p.remark) refl,
        drop-append (length p.id) p.id (p.evm_addr ++ p.remark) refl,
        take-append (length p.evm_addr) p.evm_addr p.remark refl,
        drop-append (length p.evm_addr) p.evm_addr p.remark refl,
        bit_back p.pin,
      )
      refl

pub peer_laws : CodecLaws peer_codec
peer_laws = record {
  decode-encode =
      λ p bs e. ap decode_peer (sym (some-injective (encode_peer p) bs e)) ∙ decode-encode_peer p;
}

abbrev pub decode_message : Bytes → Option Message
decode_message (a ∷ b ∷ c ∷ d ∷ e ∷ f ∷ rest) = some (record {
  id = a;
  mtype = take f rest;
  payload = drop f rest;
  reached = b == 1;
  initiator = c == 1;
  created_at = d;
  ttl = e;
})
decode_message _ = none

abbrev pub encode_message : Message → Bytes
encode_message m =
    m.id
    ∷ bit m.reached
    ∷ bit m.initiator
    ∷ m.created_at
    ∷ m.ttl
    ∷ length m.mtype
    ∷ (m.mtype ++ m.payload)

abbrev pub message_codec : Codec Message
message_codec = record {
  encode = λ m. some (encode_message m);
  decode = decode_message;
  leftover = λ bs. text_message [] 0 0 0;
}

decode-encode_message : (m : Message) → decode_message (encode_message m) ≡ some m
decode-encode_message m =
    rw
      (
        take-append (length m.mtype) m.mtype m.payload refl,
        drop-append (length m.mtype) m.mtype m.payload refl,
        bit_back m.reached,
        bit_back m.initiator,
      )
      refl

pub message_laws : CodecLaws message_codec
message_laws = record {
  decode-encode = λ m bs e.
      ap decode_message (sym (some-injective (encode_message m) bs e)) ∙ decode-encode_message m;
}
