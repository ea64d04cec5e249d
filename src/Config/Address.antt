-- ===== src/Config/Address.antt =====
-- internal/client/config.go: the digits of an Ethereum address.
use chat_libp2p.Common.{
  ℕ, zero, suc, ◌+◌, ◌*◌, ◌/◌, ◌%◌, ◌≡◌, ◌∙◌, ◌≤◌, ◌<◌, refl, ap, arith, some, [], ◌∷◌, ◌++◌, Bytes,
  length, get_elem?, drop, length-drop, put_be, All, IsByte,
}
use chat_libp2p.Config.{
  Config, Curve, hex_digit, encode_hex, from_hex, decode_hex, zeros, addr_bytes, hash_nibble,
  capital, checksum, public_hash, get_ethereum_address,
}

-- A digit is read as its value, capital or not.
from_hex-capital : (n k : ℕ) → n < 16 → from_hex (capital (hex_digit n) k) ≡ some n
unfolding from_hex capital hex_digit
from_hex-capital n k h = ground arith

within : (i : ℕ) (bs : Bytes) → i < length bs → (b : ℕ) × (get_elem? bs i ≡ some b)
within i [] h = absurd (omega arith)
within zero (b ∷ bs) h = (b, refl)
within (suc i) (b ∷ bs) h = within i bs (omega arith)

checksum_step :
    (hash : Bytes) (i b c : ℕ) (cs rest : Bytes)
    → get_elem? hash (i / 2) ≡ some b
    → checksum hash (suc i) cs ≡ some rest
    → checksum hash i (c ∷ cs) ≡ some (capital c (hash_nibble i b) ∷ rest)
unfolding checksum
checksum_step hash i b c cs rest e f = rw (e, checksum, f) refl

decode_step :
    (n k m j : ℕ) (bs text : Bytes)
    → n < 16
    → m < 16
    → decode_hex text ≡ some bs
    → decode_hex (capital (hex_digit n) k ∷ capital (hex_digit m) j ∷ text)
      ≡ some ((n * 16 + m) ∷ bs)
unfolding decode_hex
decode_step n k m j bs text h g e =
    rw (from_hex-capital n k h, from_hex-capital m j g, e, decode_hex) refl

-- The checksum succeeds, and what it capitalises is read as the same bytes.
checksum_reads :
    (hash bs : Bytes) (i : ℕ)
    → All IsByte bs
    → i + 2 * length bs ≤ 2 * length hash
    → (text : Bytes) × (checksum hash i (encode_hex bs) ≡ some text)
      × (length text ≡ 2 * length bs)
      × (decode_hex text ≡ some bs)
unfolding encode_hex checksum decode_hex
checksum_reads hash [] i v h = ([], refl, refl, refl)
checksum_reads hash (b ∷ bs) i (v, vs) h =
    let (text, done, size, reads) = checksum_reads hash bs (suc (suc i)) vs (omega arith) in
    let (x, first) = within (i / 2) hash (omega arith) in
    let (y, second) = within (suc i / 2) hash (omega arith) in
    (
      capital (hex_digit (b / 16)) (hash_nibble i x)
          ∷ capital (hex_digit (b % 16)) (hash_nibble (suc i) y)
          ∷ text,
      checksum_step hash i x (hex_digit (b / 16)) (hex_digit (b % 16) ∷ encode_hex bs) _ first
          (checksum_step hash (suc i) y (hex_digit (b % 16)) (encode_hex bs) text second done),
      omega (arith, size),
      decode_step (b / 16) (hash_nibble i x) (b % 16) (hash_nibble (suc i) y) bs text (omega arith)
            (omega arith) reads
          ∙ ap (λ z. some (z ∷ bs)) (omega arith),
    )

drop-IsByte : (n : ℕ) (bs : Bytes) → All IsByte bs → All IsByte (drop n bs)
drop-IsByte zero bs v = v
drop-IsByte (suc n) [] v = v
drop-IsByte (suc n) (b ∷ bs) v = drop-IsByte n bs v.1

whole_addr : (hash : Bytes) → length hash ≡ 20 → addr_bytes hash ≡ some hash
unfolding addr_bytes zeros
whole_addr hash e = rw e refl

module _ (curve : Curve) (keccak : Bytes → Bytes) where
  address_from :
      (c : Config) (bytes addr text : Bytes)
      → decode_hex c.private_key ≡ some bytes
      → addr_bytes (public_hash curve keccak bytes) ≡ some addr
      → checksum (keccak (encode_hex addr)) 0 (encode_hex addr) ≡ some text
      → get_ethereum_address curve keccak c ≡ some (b'0' ∷ b'x' ∷ text)
  unfolding get_ethereum_address
  address_from c bytes addr text e f g = rw (e, f, g, get_ethereum_address) refl

  -- Every private key of hexadecimal digits has an address: 0x and forty digits, which, whatever the
  -- checksum capitalises, are read as the last twenty bytes of the hash of the public key, if the hash
  -- function returns 32 bytes.
  pub get_ethereum_address-decode_hex :
      (c : Config) (bytes : Bytes)
      → ((bs : Bytes) → (length (keccak bs) ≡ 32) × All IsByte (keccak bs))
      → decode_hex c.private_key ≡ some bytes
      → (text : Bytes) × (get_ethereum_address curve keccak c ≡ some (b'0' ∷ b'x' ∷ text))
        × (length text ≡ 40)
        × (decode_hex text ≡ some (public_hash curve keccak bytes))
  unfolding public_hash
  get_ethereum_address-decode_hex c bytes laws e =
      let hash = public_hash curve keccak bytes in
      let point = put_be 32 (curve.base_mult bytes).0 ++ put_be 32 (curve.base_mult bytes).1 in
      let size : length hash ≡ 20 = omega (arith, length-drop 12 (keccak point), (laws point).0) in
      let (text, done, count, reads) =
        checksum_reads (keccak (encode_hex hash)) hash 0
          (drop-IsByte 12 (keccak point) (laws point).1)
          (omega (arith, size, (laws (encode_hex hash)).0)) in
      (
        text,
        address_from c bytes hash text e (whole_addr hash size) done,
        count ∙ omega (arith, size),
        reads,
      )
