-- ===== src/Config.antt =====
-- internal/client/config.go: the private key, the Ethereum address and the directories of a
-- configuration. The curve and the hash are parameters; encoding/hex is written out.
pub mod Address
use chat_libp2p.Common.{
  ℕ, zero, suc, ◌+◌, ◌-◌, ◌*◌, ◌/◌, ◌%◌, Bool, true, false, Option, none, some, List, [], ◌∷◌, ◌++◌,
  ◌>>=◌, Bytes, length, get_elem?, drop, ltb, leb, ◌&&◌, ◌==◌, if◌then◌else◌, put_be,
}
use chat_libp2p.Common.Paths.{join}
use chat_libp2p.Database.{codes}
use chat_libp2p.Messages.Files.{Host}

-- The fields that the code reads; `bootstrap` and `package_id` are handed on.
pub record Config : Type 0 where
  pub private_key : Bytes
  pub data_dir : Bytes

-- encoding/hex
unfoldable pub hex_digit : ℕ → ℕ
hex_digit n = if ltb n 10 then b'0' + n else b'a' + (n - 10)

unfoldable pub encode_hex : Bytes → Bytes
unfolding hex_digit
encode_hex [] = []
encode_hex (b ∷ bs) = hex_digit (b / 16) ∷ hex_digit (b % 16) ∷ encode_hex bs

unfoldable pub from_hex : ℕ → Option ℕ
from_hex b =
    if leb b'0' b && leb b b'9'
    then some (b - b'0')
    else if leb b'a' b && leb b b'f'
    then some (b - b'a' + 10)
    else if leb b'A' b && leb b b'F'
    then some (b - b'A' + 10)
    else none

unfoldable pub decode_hex : Bytes → Option Bytes
unfolding from_hex
decode_hex [] = some []
decode_hex (a ∷ []) = none
decode_hex (a ∷ b ∷ bs) = do
  x ← from_hex a
  y ← from_hex b
  rest ← decode_hex bs
  some ((x * 16 + y) ∷ rest)

-- What is left of the hash of the public key, in 20 bytes; a longer one would panic.
unfoldable pub zeros : ℕ → Bytes
zeros zero = []
zeros (suc n) = 0 ∷ zeros n

unfoldable pub addr_bytes : Bytes → Option Bytes
unfolding zeros
addr_bytes hash = if leb (length hash) 20 then some (zeros (20 - length hash) ++ hash) else none

unfoldable pub hash_nibble : ℕ → ℕ → ℕ
hash_nibble i b = if i % 2 == 0 then b / 16 else b % 16

unfoldable pub capital : ℕ → ℕ → ℕ
capital c nibble = if ltb b'9' c && ltb 7 nibble then c - 32 else c

-- The loop of the checksum, over the digits from the place `i` on; `none` is an index out of range.
unfoldable pub checksum : Bytes → ℕ → Bytes → Option Bytes
unfolding hash_nibble capital
checksum hash i [] = some []
checksum hash i (c ∷ cs) = do
  b ← get_elem? hash (i / 2)
  rest ← checksum hash (suc i) cs
  some (capital c (hash_nibble i b) ∷ rest)

-- secp256k1: a key of bytes, one that is generated from bytes as its randomness, its bytes, and the
-- point of a scalar.
pub record Curve : Type 1 where
  pub Key : Type 0
  pub from_bytes : Bytes → Key
  pub generate : Bytes → Option Key
  pub raw : Key → Bytes
  pub base_mult : Bytes → ℕ × ℕ

pub data System : Type 0 where
  darwin ios android linux windows other : System

-- The rounds of the switch with its fallthroughs; `none` is an unknown system.
unfoldable pub nested : System → Option ℕ
nested darwin = some 4
nested ios = some 3
nested android = some 2
nested linux = some 1
nested windows = some 0
nested other = none

module _ (curve : Curve) where
  unfoldable pub derive : ℕ → Bytes → curve.Key → Option curve.Key
  derive zero bytes key = some key
  derive (suc n) bytes key = do k ← curve.generate bytes; derive n (curve.raw k) k

  -- GetPrivateKey
  unfoldable pub get_private_key : System → Config → Option curve.Key
  unfolding decode_hex derive nested
  get_private_key system c = do
    bytes ← decode_hex c.private_key
    n ← nested system
    if length bytes == 32 then derive n bytes (curve.from_bytes bytes) else none

  module _ (keccak : Bytes → Bytes) where
    unfoldable pub public_hash : Bytes → Bytes
    public_hash bytes =
        let (x, y) = curve.base_mult bytes in drop 12 (keccak (put_be 32 x ++ put_be 32 y))

    -- GetEthereumAddress
    unfoldable pub get_ethereum_address : Config → Option Bytes
    unfolding decode_hex public_hash addr_bytes encode_hex checksum
    get_ethereum_address c = do
      bytes ← decode_hex c.private_key
      addr ← addr_bytes (public_hash bytes)
      let digits = encode_hex addr
      text ← checksum (keccak digits) 0 digits
      some (b'0' ∷ b'x' ∷ text)

module _ (h : Host) (home : Option Bytes) where
  unfoldable pub made : Bytes → h.Files → Option Bytes × h.Files
  made dir f = elim (h.make_dirs f dir) [ none ↦ (none, f) | some g ↦ (some dir, g) ]

  -- GetSDKDir; `home` is what os.UserHomeDir returns.
  unfoldable pub get_sdk_dir : Config → h.Files → Option Bytes × h.Files
  unfolding made
  get_sdk_dir c f = elim c.data_dir [
    | [] ↦ elim home [ none ↦ (none, f) | some dir ↦ made (join (dir ∷ codes ".aks_sdk" ∷ [])) f ]
    | b ∷ bs ↦ made (join (c.data_dir ∷ codes ".aks_sdk" ∷ [])) f
  ]

  unfoldable pub sub_dir : Bytes → Option Bytes × h.Files → Option Bytes × h.Files
  unfolding made
  sub_dir name (none, f) = (none, f)
  sub_dir name (some dir, f) = made (join (dir ∷ name ∷ [])) f

  unfoldable pub get_image_dir : Config → h.Files → Option Bytes × h.Files
  unfolding get_sdk_dir sub_dir
  get_image_dir c f = sub_dir (codes "image") (get_sdk_dir c f)

  unfoldable pub get_database_dir : Config → h.Files → Option Bytes × h.Files
  unfolding get_sdk_dir sub_dir
  get_database_dir c f = sub_dir (codes "database") (get_sdk_dir c f)
