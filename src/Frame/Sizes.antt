-- ===== src/Frame/Sizes.antt =====
-- The five forms of the header, and what the first byte gives back.
use Prim.Native.Nat.{bit_and}
use chat_libp2p.Common.{
  mod_small, ℕ, ◌+◌, ◌*◌, ◌/◌, ◌%◌, ◌^◌, ◌<◌, ◌≤◌, ◌≡◌, refl, arith, [], ◌∷◌, ◌⊎◌, inl, inr, leb,
  put_be, Bool-cases, ◌∙◌,
}
use chat_libp2p.Common.Slices.Masks.{low_five, join_five}
use chat_libp2p.Frame.{head_byte, header}

pub head_byte_lem : (flag size : ℕ) → size < 32 → head_byte flag size ≡ flag % 8 * 32 + size
unfolding head_byte
head_byte_lem = join_five

pub head_byte-IsByte : (flag size : ℕ) → size < 32 → head_byte flag size < 256
head_byte-IsByte flag size h = omega (arith, head_byte_lem flag size h)

pub head_byte_flag : (flag size : ℕ) → size < 32 → head_byte flag size / 32 ≡ flag % 8
head_byte_flag flag size h = omega (arith, head_byte_lem flag size h)

pub head_byte_size : (flag size : ℕ) → size < 32 → bit_and (head_byte flag size) 0x1f ≡ size
head_byte_size flag size h =
    low_five (head_byte flag size) (head_byte-IsByte flag size h)
    ∙ omega (arith, head_byte_lem flag size h)

-- The code in the first byte and the number of size bytes behind it.
abbrev pub IsCode : ℕ → ℕ → Type 0
IsCode c width =
    ((c ≡ 0x10) × (width ≡ 1))
    ⊎ ((c ≡ 0x11) × (width ≡ 2))
    ⊎ ((c ≡ 0x12) × (width ≡ 4))
    ⊎ ((c ≡ 0x13) × (width ≡ 8))

-- The two shapes of a header: the size in the first byte, or a code and the size behind it.
pub data Form (flag n : ℕ) : Type 0 where
  short : n ≤ 0x0f → header flag n ≡ head_byte flag n ∷ [] → Form flag n
  long :
      (c width : ℕ)
      → IsCode c width
      → n < 256 ^ width
      → header flag n ≡ head_byte flag c ∷ put_be width n
      → Form flag n

put_be_one : (n : ℕ) → put_be 1 n ≡ n % 256 ∷ []
unfolding put_be
put_be_one n = refl

pub header-Form : (flag n : ℕ) → n < 2 ^ 64 → Form flag n
unfolding header
header-Form flag n h = elim (Bool-cases (leb n 0x0f)) [
  | inl e ↦ short (ground arith) (ground (arith, mod_small n 256))
  | inr e ↦ elim (Bool-cases (leb n 0xff)) [
    | inl e1 ↦ long 0x10 1 (inl (refl, refl)) (ground arith) (ground (arith, put_be_one n))
    | inr e1 ↦ elim (Bool-cases (leb n 0xffff)) [
      | inl e2 ↦
          long 0x11 2 (inr (inl (refl, refl))) (ground arith) (ground (arith, mod_small n (2 ^ 16)))
      | inr e2 ↦ elim (Bool-cases (leb n 0xffff_ffff)) [
        | inl e3 ↦
            long 0x12 4 (inr (inr (inl (refl, refl)))) (ground arith)
              (ground (arith, mod_small n (2 ^ 32)))
        | inr e3 ↦ long 0x13 8 (inr (inr (inr (refl, refl)))) h (ground arith)
      ]
    ]
  ]
]
