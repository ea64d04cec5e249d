-- ===== src/Mobile/Decimals.antt =====
-- Numbers printed and read in decimal.
use chat_libp2p.Common.{
  ℕ, zero, suc, ◌+◌, ◌*◌, ◌/◌, ◌%◌, ◌^◌, ◌<◌, ◌≡◌, ◌≢◌, ◌∙◌, refl, sym, ap, arith, Bool, true,
  false, some, [], ◌∷◌, ◌++◌, Bytes, ltb, Bool-cases, inl, inr,
}
use mathlib.Core.List.{append_assoc, append-nil}
use chat_libp2p.Mobile.{digits, format_uint, is_digit, parse_digits, parse_uint}

-- One more digit.
parse_digit :
    (acc b : ℕ) (rest : Bytes)
    → b < 10
    → acc * 10 + b < 2 ^ 64
    → parse_digits acc ((48 + b) ∷ rest) ≡ parse_digits (acc * 10 + b) rest
unfolding parse_digits is_digit
parse_digit acc b rest small fits = ground arith

one_digit : (fuel n : ℕ) → ltb n 10 ≡ true → digits (suc fuel) n ≡ (48 + n) ∷ []
unfolding digits
one_digit fuel n e = rw e

more_digits :
    (fuel n : ℕ)
    → ltb n 10 ≡ false
    → digits (suc fuel) n ≡ digits fuel (n / 10) ++ (48 + n % 10) ∷ []
unfolding digits
more_digits fuel n e = rw e

parse_digits-digits :
    (fuel n : ℕ) (rest : Bytes)
    → n < 10 ^ fuel
    → n < 2 ^ 64
    → parse_digits 0 (digits fuel n ++ rest) ≡ parse_digits n rest
parse_digits-digits zero n rest h k = let e : n ≡ 0 = omega arith in rw e (unfold digits in refl)
parse_digits-digits (suc fuel) n rest h k = elim (Bool-cases (ltb n 10)) [
  | inl small ↦ rw (one_digit fuel n small) (
      parse_digit 0 n rest (ground arith) (omega arith)
      ∙ ap (λ m. parse_digits m rest) (omega arith))
  | inr large ↦ rw (more_digits fuel n large) (
      ap (parse_digits 0) (append_assoc (digits fuel (n / 10)) ((48 + n % 10) ∷ []) rest)
      ∙ parse_digits-digits fuel (n / 10) ((48 + n % 10) ∷ rest) (grind arith) (omega arith)
      ∙ parse_digit (n / 10) (n % 10) rest (omega arith) (omega arith)
      ∙ ap (λ m. parse_digits m rest) (omega arith))
]

parse_uint_nonempty : (bs : Bytes) → bs ≢ [] → parse_uint bs ≡ parse_digits 0 bs
unfolding parse_uint
parse_uint_nonempty [] h = absurd (h refl)
parse_uint_nonempty (b ∷ bs) h = refl

is_cons : Bytes → Bool
is_cons [] = false
is_cons (b ∷ bs) = true

append_nonempty : (xs : Bytes) (b : ℕ) → xs ++ b ∷ [] ≢ []
append_nonempty [] b e = absurd (grind (arith, ap is_cons e))
append_nonempty (x ∷ xs) b e = absurd (grind (arith, ap is_cons e))

digits-ne-nil : (fuel n : ℕ) → digits (suc fuel) n ≢ []
digits-ne-nil fuel n e = elim (Bool-cases (ltb n 10)) [
  | inl small ↦ append_nonempty [] (48 + n) (sym (one_digit fuel n small) ∙ e)
  | inr large ↦
      append_nonempty (digits fuel (n / 10)) (48 + n % 10) (sym (more_digits fuel n large) ∙ e)
]

-- ParseUint reads every 64-bit number that FormatUint printed.
pub parse_uint-format_uint : (n : ℕ) → n < 2 ^ 64 → parse_uint (format_uint n) ≡ some n
unfolding format_uint
parse_uint-format_uint n h =
    parse_uint_nonempty (digits 20 n) (digits-ne-nil 19 n)
    ∙ ap (parse_digits 0) (sym (append-nil (digits 20 n)))
    ∙ parse_digits-digits 20 n [] (omega arith) h
    ∙ unfold parse_digits in refl
