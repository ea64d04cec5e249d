-- ===== src/Common/Slices.antt =====
-- Byte slices as lists of numbers: big-endian integers (encoding/binary), slicing and indexing that
-- panic out of range, comparison of Go strings, and the masks that the frame header uses.
pub mod Masks
use Prim.Native.Nat.{ℕ, zero, suc, ◌+◌, ◌*◌, ◌/◌, ◌%◌, ◌^◌, ◌≤◌, ◌<◌}
use mathlib.Core.Path.{◌≡◌, refl, sym, ap, ◌∙◌}
use mathlib.Core.Logic.{◌≢◌, ◌↔◌, ◌⊎◌, inl, inr}
use mathlib.Core.Bool.{Bool, true, false, ◌&&◌}
use mathlib.Core.Option.{Option, none, some}
use mathlib.Core.List.{List, [], ◌∷◌, ◌++◌, append_assoc}
use native.Mathlib.Omega.{arith}
use native.Mathlib.Nat.{mod-eq_of_lt}
use chat_libp2p.Common.Tests.{ltb, leb, ◌==◌, if◌then◌else◌, ==_iff, le→leb}
use chat_libp2p.Common.Lists.{
  length, length-append, take, take-append, drop, drop-append, get_elem?, All, All-append,
}

abbrev pub Bytes : Type 0
Bytes = List ℕ

abbrev pub IsByte : ℕ → Type 0
IsByte b = b < 256

abbrev pub IsU64 : ℕ → Type 0
IsU64 v = v < 2 ^ 64

pub mod_small : (n m : ℕ) → n < m → n % m ≡ n
mod_small n m h = mod-eq_of_lt h

-- `n` bytes of `v`, highest first, as `binary.BigEndian.PutUint16/32/64` write them.
unfoldable pub put_be : ℕ → ℕ → Bytes
put_be zero v = []
put_be (suc n) v = put_be n (v / 256) ++ v % 256 ∷ []

unfoldable pub be_value : ℕ → Bytes → ℕ
be_value acc [] = acc
be_value acc (b ∷ bs) = be_value (acc * 256 + b) bs

-- `buf[k:]`; `none` is the panic of a slice bound out of range.
unfoldable pub slice : ℕ → Bytes → Option Bytes
slice zero bs = some bs
slice (suc n) [] = none
slice (suc n) (b ∷ bs) = slice n bs

-- `binary.BigEndian.Uint16/32/64(buf)` for 2, 4 and 8 bytes; `none` is the panic on a short slice.
unfoldable pub uint_be : ℕ → Bytes → Option ℕ
uint_be n bs = if leb n (length bs) then some (be_value 0 (take n bs)) else none

-- `dst := make([]byte, n); copy(dst, src)`
unfoldable pub make_copy : ℕ → Bytes → Bytes
make_copy zero src = []
make_copy (suc n) [] = 0 ∷ make_copy n []
make_copy (suc n) (b ∷ bs) = b ∷ make_copy n bs

pub length-put_be : (n v : ℕ) → length (put_be n v) ≡ n
unfolding put_be
length-put_be zero v = refl
length-put_be (suc n) v =
    omega (arith, length-append (put_be n (v / 256)) (v % 256 ∷ []), length-put_be n (v / 256))

pub put_be-IsByte : (n v : ℕ) → All IsByte (put_be n v)
unfolding put_be
put_be-IsByte zero v = tt
put_be-IsByte (suc n) v =
    All-append IsByte (put_be n (v / 256)) _ (put_be-IsByte n (v / 256)) (omega arith)

be_value-snoc :
    (acc : ℕ) (bs : Bytes) (b : ℕ) → be_value acc (bs ++ b ∷ []) ≡ be_value acc bs * 256 + b
unfolding be_value
be_value-snoc acc [] b = refl
be_value-snoc acc (c ∷ bs) b = be_value-snoc (acc * 256 + c) bs b

pub be_value-put_be : (n v : ℕ) → v < 256 ^ n → be_value 0 (put_be n v) ≡ v
unfolding put_be
be_value-put_be zero v h = unfold be_value in omega arith
be_value-put_be (suc n) v h =
    be_value-snoc 0 (put_be n (v / 256)) (v % 256)
    ∙ omega (arith, be_value-put_be n (v / 256) (grind arith))

pub uint_be-put_be :
    (n v : ℕ) (rest : Bytes) → v < 256 ^ n → uint_be n (put_be n v ++ rest) ≡ some v
unfolding uint_be
uint_be-put_be n v rest h = rw (
  le→leb n (length (put_be n v ++ rest))
      (omega (arith, length-append (put_be n v) rest, length-put_be n v)),
  take-append n (put_be n v) rest (length-put_be n v),
  be_value-put_be n v h,
)

pub slice-append : (n k : ℕ) (xs ys : Bytes) → length xs ≡ n → slice (n + k) (xs ++ ys) ≡ slice k ys
unfolding slice
slice-append n k [] ys h = let e : n + k ≡ k = omega arith in rw e
slice-append n k (x ∷ xs) ys h =
    let e : n + k ≡ suc (length xs + k) = omega arith in
    rw e (slice-append (length xs) k xs ys refl)

-- The slice that begins where the first list ends.
pub slice_exact : (n : ℕ) (xs ys : Bytes) → length xs ≡ n → slice n (xs ++ ys) ≡ some ys
unfolding slice
slice_exact zero [] ys h = refl
slice_exact zero (x ∷ xs) ys h = absurd (omega arith)
slice_exact (suc n) [] ys h = absurd (omega arith)
slice_exact (suc n) (x ∷ xs) ys h = slice_exact n xs ys (omega arith)

pub slice_lem : (n : ℕ) (xs : Bytes) → n ≤ length xs → slice n xs ≡ some (drop n xs)
unfolding slice
slice_lem zero xs h = refl
slice_lem (suc n) [] h = absurd (omega arith)
slice_lem (suc n) (x ∷ xs) h = slice_lem n xs (omega arith)

pub make_copy-take : (n : ℕ) (xs : Bytes) → n ≤ length xs → make_copy n xs ≡ take n xs
unfolding make_copy
make_copy-take zero xs h = refl
make_copy-take (suc n) [] h = absurd (omega arith)
make_copy-take (suc n) (x ∷ xs) h = ap (λ t. x ∷ t) (make_copy-take n xs (omega arith))

pub get_elem?-append :
    (n k : ℕ) (xs ys : Bytes) → length xs ≡ n → get_elem? (xs ++ ys) (n + k) ≡ get_elem? ys k
get_elem?-append n k [] ys h = let e : n + k ≡ k = omega arith in rw e
get_elem?-append n k (x ∷ xs) ys h =
    let e : n + k ≡ suc (length xs + k) = omega arith in
    rw e (get_elem?-append (length xs) k xs ys refl)

pub make_copy_self : (bs : Bytes) → make_copy (length bs) bs ≡ bs
unfolding make_copy
make_copy_self [] = refl
make_copy_self (b ∷ bs) = ap (λ t. b ∷ t) (make_copy_self bs)

pub make_copy-append : (n : ℕ) (bs rest : Bytes) → length bs ≡ n → make_copy n (bs ++ rest) ≡ bs
unfolding make_copy
make_copy-append zero [] rest h = refl
make_copy-append zero (b ∷ bs) rest h = absurd (omega arith)
make_copy-append (suc n) [] rest h = absurd (omega arith)
make_copy-append (suc n) (b ∷ bs) rest h =
    ap (λ t. b ∷ t) (make_copy-append n bs rest (omega arith))
