-- ===== src/Database.antt =====
-- internal/client/service/service.go: the names of the buckets, and how a bucket is found or made.
-- The database (bbolt) is not part of the repository: it is a parameter, a `Bolt`, with the documented
-- behaviour that the code relies on as `BoltLaws`. `none` is an error that bbolt returns.
pub mod Table
pub mod Buckets
use Prim.Native.Char.{code}
use Prim.Native.String.{String}
use chat_libp2p.Common.{
  ℕ, zero, suc, ◌+◌, ◌%◌, ◌^◌, ◌≡◌, refl, Bool, true, false, Option, none, some, List, [], ◌∷◌,
  ◌++◌, ◌==◌, ◌&&◌, if◌then◌else◌, Bytes, bytes_beq,
}

pub record Bolt : Type 1 where
  pub Tx : Type 0
  pub has : Tx → Bytes → Bool
  pub create : Tx → Bytes → Option Tx
  pub drop_bucket : Tx → Bytes → Tx
  pub get : Tx → Bytes → Bytes → Option Bytes
  pub put : Tx → Bytes → Bytes → Bytes → Option Tx
  pub delete : Tx → Bytes → Bytes → Option Tx
  pub next_sequence : Tx → Bytes → Option (ℕ × Tx)
  -- the last number that NextSequence gave
  pub sequence : Tx → Bytes → ℕ
  pub cursor : Tx → Bytes → List (Bytes × Bytes)

-- A key of a bucket, as one test.
abbrev pub same_entry : Bytes → Bytes → Bytes → Bytes → Bool
same_entry b k c j = bytes_beq b c && bytes_beq k j

pub record BoltLaws (d : Bolt) : Type 0 where
  pub get-put :
      (t u : d.Tx) (b k v c j : Bytes)
      → d.put t b k v ≡ some u
      → d.get u c j ≡ (if same_entry b k c j then some v else d.get t c j)
  pub get-delete :
      (t u : d.Tx) (b k c j : Bytes)
      → d.delete t b k ≡ some u
      → d.get u c j ≡ (if same_entry b k c j then none else d.get t c j)
  pub get-create : (t u : d.Tx) (b c j : Bytes) → d.create t b ≡ some u → d.get u c j ≡ d.get t c j
  pub get-next_sequence :
      (t u : d.Tx) (b c j : Bytes) (n : ℕ)
      → d.next_sequence t b ≡ some (n, u)
      → d.get u c j ≡ d.get t c j
  pub get-drop_bucket :
      (t : d.Tx) (b c j : Bytes)
      → d.get (d.drop_bucket t b) c j ≡ (if bytes_beq b c then none else d.get t c j)
  pub has-put : (t u : d.Tx) (b k v c : Bytes) → d.put t b k v ≡ some u → d.has u c ≡ d.has t c
  pub has-delete : (t u : d.Tx) (b k c : Bytes) → d.delete t b k ≡ some u → d.has u c ≡ d.has t c
  pub has-drop_bucket :
      (t : d.Tx) (b c : Bytes)
      → d.has (d.drop_bucket t b) c ≡ (if bytes_beq b c then false else d.has t c)
  pub has-create :
      (t u : d.Tx) (b c : Bytes)
      → d.create t b ≡ some u
      → d.has u c ≡ (if bytes_beq b c then true else d.has t c)
  pub has-next_sequence :
      (t u : d.Tx) (b c : Bytes) (n : ℕ) → d.next_sequence t b ≡ some (n, u) → d.has u c ≡ d.has t c
  -- NextSequence counts the bucket's numbers up, in words of 64 bits; putting entries and creating other
  -- buckets leave them.
  pub next_sequence-sequence :
      (t u : d.Tx) (b : Bytes) (n : ℕ)
      → d.next_sequence t b ≡ some (n, u)
      → (n ≡ (d.sequence t b + 1) % 2 ^ 64) × (d.sequence u b ≡ n)
  pub sequence-put :
      (t u : d.Tx) (b k v c : Bytes) → d.put t b k v ≡ some u → d.sequence u c ≡ d.sequence t c
  pub sequence-create :
      (t u : d.Tx) (b c : Bytes)
      → d.create t b ≡ some u
      → bytes_beq b c ≡ false
      → d.sequence u c ≡ d.sequence t c

pub data Fault : Type 0 where
  no_suffix bolt_error not_found encode_error decode_error query_error unsupported : Fault

pub data Result {ℓ} (A : Type ℓ) : Type ℓ where
  ok : A → Result A
  err : Fault → Result A

infixl 5 ◌>>=◌
abbrev pub ◌>>=◌ {ℓ κ} : {A : Type ℓ} {B : Type κ} → Result A → (A → Result B) → Result B
ok a >>= f = f a
err e >>= f = err e

abbrev pub or_fault {ℓ} : {A : Type ℓ} → Fault → Option A → Result A
or_fault e none = err e
or_fault e (some a) = ok a

abbrev pub codes : String → List ℕ
codes String.[] = []
codes (String.◌∷◌ c s) = code c ∷ codes s

abbrev pub key_peer : Bytes
key_peer = codes "peers"

abbrev pub key_images : Bytes
key_images = codes "images"

abbrev pub key_msg_pending : Bytes
key_msg_pending = codes "msg_pending_"

abbrev pub key_msg_received : Bytes
key_msg_received = codes "msg_received_"

abbrev pub key_dialogue : Bytes
key_dialogue = codes "dialogue_"

abbrev pub key_destroy_msg : Bytes
key_destroy_msg = codes "destory_msg"

abbrev pub underscore : ℕ
underscore = b'_'

-- Suffix(suffix)
unfoldable pub suffix : Bytes → Bytes → Bytes
suffix b s = b ++ s

-- `b[len(b)-1] == '_'`; no key is empty
unfoldable pub ends_open : Bytes → Bool
ends_open [] = false
ends_open (c ∷ []) = c == underscore
ends_open (c ∷ d ∷ cs) = ends_open (d ∷ cs)

module _ (d : Bolt) where
  -- GetBucket(tx): an error, or whether the bucket is there
  unfoldable pub get_bucket : Bytes → d.Tx → Result Bool
  get_bucket b t = if ends_open b then err no_suffix else ok (d.has t b)

  -- GetOrNewBucket(tx)
  unfoldable pub get_or_new_bucket : Bytes → d.Tx → Result d.Tx
  unfolding get_bucket
  get_or_new_bucket b t = do
    found ← get_bucket b t
    if found then ok t else or_fault bolt_error (d.create t b)

  -- TruncateBucket(tx)
  unfoldable pub truncate_bucket : Bytes → d.Tx → Result d.Tx
  truncate_bucket b t = or_fault bolt_error (d.create (d.drop_bucket t b) b)

  -- db.Update: the transaction is committed if the function returns no error, else nothing changes.
  unfoldable pub commit {ℓ} : {A : Type ℓ} → d.Tx → Result (A × d.Tx) → Result A × d.Tx
  commit t (err e) = (err e, t)
  commit t (ok (a, u)) = (ok a, u)

  unfoldable pub update {ℓ} : {A : Type ℓ} → (d.Tx → Result (A × d.Tx)) → d.Tx → Result A × d.Tx
  unfolding commit
  update f t = commit t (f t)

  commit_ok {ℓ} :
      {A : Type ℓ} (t u : d.Tx) (a : A) (r : Result (A × d.Tx))
      → commit t r ≡ (ok a, u)
      → r ≡ ok (a, u)
  unfolding commit
  commit_ok t u a (err e) h = absurd (cc h)
  commit_ok t u a (ok (x, v)) h = cc

  -- An update that is reported as done ran to its end, and its database is kept.
  pub update_ok {ℓ} :
      {A : Type ℓ} (f : d.Tx → Result (A × d.Tx)) (t u : d.Tx) (a : A)
      → update f t ≡ (ok a, u)
      → f t ≡ ok (a, u)
  unfolding update
  update_ok f t u a h = commit_ok t u a (f t) h

-- Taking a chain of steps that succeeded apart.
pub bind_ok {ℓ κ} :
    {A : Type ℓ} {B : Type κ} (m : Result A) (f : A → Result B) (b : B)
    → (m >>= f) ≡ ok b
    → (a : A) × (m ≡ ok a) × (f a ≡ ok b)
bind_ok (ok a) f b h = (a, refl, h)
bind_ok (err e) f b h = cc

pub or_fault_ok {ℓ} :
    {A : Type ℓ} (e : Fault) (o : Option A) (a : A) → or_fault e o ≡ ok a → o ≡ some a
or_fault_ok e none a h = cc
or_fault_ok e (some b) a h = cc
