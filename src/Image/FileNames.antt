-- ===== src/Image/FileNames.antt =====
-- filepath.Ext and strings.TrimSuffix, as image/types.go uses them on a file's base name.
use mathlib.Core.List.{append-nil}
use chat_libp2p.Common.{
  ℕ, ◌-◌, ◌≡◌, refl, sym, ap, ◌∙◌, arith, Bool, true, false, ◌&&◌, ◌||◌, [], ◌∷◌, ◌++◌, ◌==◌, leb,
  if◌then◌else◌, length, take, drop, Bytes, bytes_beq, bytes_beq_iff, length-append, take-append,
  drop-append, le→leb, not,
}

abbrev dot : ℕ
dot = b'.'

has_sep : (ℕ → Bool) → Bytes → Bool
has_sep is_sep [] = false
has_sep is_sep (b ∷ bs) = is_sep b || has_sep is_sep bs

-- An extension found further on stands; else the name's rest begins here, if it does.
ext_step : ℕ → Bytes → Bool → Bytes → Bytes
ext_step b bs begins [] = if begins then b ∷ bs else []
ext_step b bs begins (c ∷ cs) = c ∷ cs

-- The suffix from the last dot of the last path element on; empty without such a dot.
unfoldable pub ext : (ℕ → Bool) → Bytes → Bytes
unfolding has_sep ext_step
ext is_sep [] = []
ext is_sep (b ∷ bs) =
    ext_step b bs (b == dot && not (is_sep b || has_sep is_sep bs)) (ext is_sep bs)

-- strings.TrimSuffix
unfoldable pub trim_suffix : Bytes → Bytes → Bytes
trim_suffix s suffix =
    let n = length s - length suffix in
    if leb (length suffix) (length s) && bytes_beq (drop n s) suffix then take n s else s

pub trim_suffix-append : (s suffix : Bytes) → trim_suffix (s ++ suffix) suffix ≡ s
unfolding trim_suffix
trim_suffix-append s suffix =
    let n_eq : length (s ++ suffix) - length suffix ≡ length s =
      omega (arith, length-append s suffix) in
    rw (
      n_eq,
      le→leb (length suffix) (length (s ++ suffix)) (omega (arith, length-append s suffix)),
      drop-append (length s) s suffix refl,
      take-append (length s) s suffix refl,
      (bytes_beq_iff suffix suffix).1 refl,
    )

ext_step-suffix :
    (b : ℕ) (bs : Bytes) (begins : Bool) (e front : Bytes)
    → bs ≡ front ++ e
    → (front' : Bytes) × (b ∷ bs ≡ front' ++ ext_step b bs begins e)
unfolding ext_step
ext_step-suffix b bs true [] front h = ([], refl)
ext_step-suffix b bs false [] front h = (b ∷ bs, ap (λ t. b ∷ t) (sym (append-nil bs)))
ext_step-suffix b bs begins (c ∷ cs) front h = (b ∷ front, ap (λ t. b ∷ t) h)

-- The extension is a suffix of the name.
pub ext-suffix : (is_sep : ℕ → Bool) (s : Bytes) → (front : Bytes) × (s ≡ front ++ ext is_sep s)
unfolding ext
ext-suffix is_sep [] = ([], refl)
ext-suffix is_sep (b ∷ bs) =
    let (front, h) = ext-suffix is_sep bs in ext_step-suffix b bs _ (ext is_sep bs) front h

-- The two parts of a name make it up again.
pub trim-ext : (is_sep : ℕ → Bool) (s : Bytes) → trim_suffix s (ext is_sep s) ++ ext is_sep s ≡ s
trim-ext is_sep s =
    let (front, h) = ext-suffix is_sep s in
    let cut : trim_suffix s (ext is_sep s) ≡ front =
      ap (λ t. trim_suffix t (ext is_sep s)) h ∙ trim_suffix-append front (ext is_sep s) in
    ap (λ t. t ++ ext is_sep s) cut ∙ sym h
