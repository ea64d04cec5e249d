-- ===== src/Common/Slices/Masks.antt =====
-- The shift and masks of the frame header byte as arithmetic, by tables of at most 256 entries.
use Prim.Native.Nat.{ℕ, zero, suc, ◌+◌, ◌*◌, ◌/◌, ◌%◌, ◌<◌, bit_and, bit_or}
use mathlib.Core.Path.{◌≡◌, refl, ap, ◌∙◌}
use mathlib.Core.Bool.{Bool, true, ◌&&◌}
use native.Mathlib.Omega.{arith}
use chat_libp2p.Common.Tests.{◌==◌}

agree_below : ℕ → (ℕ → ℕ) → (ℕ → ℕ) → Bool
agree_below zero f g = true
agree_below (suc n) f g = (f n == g n) && agree_below n f g

agree_below→eq : (n : ℕ) (f g : ℕ → ℕ) → agree_below n f g ≡ true → (i : ℕ) → i < n → f i ≡ g i
unfolding agree_below
agree_below→eq zero f g e i h = absurd (omega arith)
agree_below→eq (suc n) f g e i h = ground (arith, agree_below→eq n f g (ground arith) i)

-- `b & 0x1f` on a byte
pub low_five : (b : ℕ) → b < 256 → bit_and b 0x1f ≡ b % 32
unfolding agree_below
low_five = agree_below→eq 256 _ _ refl

join_table : (b : ℕ) → b < 256 → bit_or (b / 32 * 32) (b % 32) ≡ b
unfolding agree_below
join_table = agree_below→eq 256 _ _ refl

-- `byte(flag << 5) | size`, for a size of five bits
pub join_five : (flag size : ℕ) → size < 32 → bit_or (flag * 32 % 256) size ≡ flag % 8 * 32 + size
join_five flag size h =
    let n : ℕ = flag % 8 * 32 + size in
    let high : flag * 32 % 256 ≡ n / 32 * 32 = omega arith in
    let low : size ≡ n % 32 = omega arith in
    ap (λ (t : ℕ). bit_or t size) high
    ∙ ap (λ (t : ℕ). bit_or (n / 32 * 32) t) low
    ∙ join_table n (omega arith)
