-- ===== src/Database/Buckets.antt =====
-- Which bucket names are refused.
use chat_libp2p.Common.{
  ℕ, ◌≡◌, ◌∙◌, refl, arith, Bool, true, false, some, [], ◌∷◌, ◌++◌, ◌==◌, if◌then◌else◌, Bytes,
  bytes_beq, bytes_beq_iff, Bool-cases, Option-cases, inl, inr, sym, ap,
}
use mathlib.Core.List.{append_assoc}
use chat_libp2p.Database.{
  Bolt, BoltLaws, ok, err, no_suffix, or_fault, bolt_error, suffix, ends_open, underscore,
  get_bucket, get_or_new_bucket, or_fault_ok,
}

pub ends_open-append : (xs ys : Bytes) (y : ℕ) → ends_open (xs ++ y ∷ ys) ≡ ends_open (y ∷ ys)
unfolding ends_open
ends_open-append [] ys y = refl
ends_open-append (x ∷ []) ys y = refl
ends_open-append (x ∷ z ∷ xs) ys y = ends_open-append (z ∷ xs) ys y

pub open_suffix :
    (key front : Bytes) (last : ℕ) → ends_open (key ++ (front ++ last ∷ [])) ≡ (last == underscore)
open_suffix key front last =
    ap ends_open (sym (append_assoc key front (last ∷ [])))
    ∙ ends_open-append (key ++ front) [] last
    ∙ unfold ends_open in refl

-- The name of a peer's bucket is refused just when the peer's identifier ends in an underscore.
pub get_bucket-suffix :
    (d : Bolt) (t : d.Tx) (key front : Bytes) (last : ℕ)
    → (get_bucket d (suffix key (front ++ last ∷ [])) t ≡ err no_suffix → last ≡ underscore)
      × (last ≡ underscore → get_bucket d (suffix key (front ++ last ∷ [])) t ≡ err no_suffix)
unfolding get_bucket suffix
get_bucket-suffix d t key front last = (
  λ h. ground (arith, open_suffix key front last),
  λ h. ground (arith, open_suffix key front last),
)

module _ (d : Bolt) (t : d.Tx) (b : Bytes) where
  pub get_or_new_there : ends_open b ≡ false → d.has t b ≡ true → get_or_new_bucket d b t ≡ ok t
  unfolding get_or_new_bucket get_bucket
  get_or_new_there o h = rw (o, h)

  pub get_or_new_created :
      ends_open b ≡ false
      → d.has t b ≡ false
      → get_or_new_bucket d b t ≡ or_fault bolt_error (d.create t b)
  unfolding get_or_new_bucket get_bucket
  get_or_new_created o h = rw (o, h)

  pub get_or_new_open : ends_open b ≡ true → get_or_new_bucket d b t ≡ err no_suffix
  unfolding get_or_new_bucket get_bucket
  get_or_new_open o = rw o

-- What GetOrNewBucket returns has the bucket, and every entry is as before.
pub get_or_new_bucket_lem :
    (d : Bolt) (w : BoltLaws d) (t u : d.Tx) (b : Bytes)
    → get_or_new_bucket d b t ≡ ok u
    → (d.has u b ≡ true) × ((c j : Bytes) → d.get u c j ≡ d.get t c j)
get_or_new_bucket_lem d w t u b h = elim (Bool-cases (ends_open b)) [
  | inl open_key ↦ absurd (cc (get_or_new_open d t b open_key))
  | inr closed ↦ elim (Bool-cases (d.has t b)) [
    | inl there ↦
        (let same : t ≡ u = cc (get_or_new_there d t b closed there) in
          (rw (← same) there, λ c j. ap (λ x. d.get x c j) (sym same)))
    | inr missing ↦ elim (Option-cases (d.create t b)) [
      | inl failed ↦
          absurd (cc (get_or_new_created d t b closed missing, ap (or_fault bolt_error) failed))
      | inr (v, made) ↦
          (let same : v ≡ u =
              cc (get_or_new_created d t b closed missing, ap (or_fault bolt_error) made) in
            (
              rw (← same) (w.has-create t v b b made ∙ rw ((bytes_beq_iff b b).1 refl)),
              λ c j. ap (λ x. d.get x c j) (sym same) ∙ w.get-create t v b c j made,
            ))
    ]
  ]
]

pub get_or_new_closed :
    (d : Bolt) (t u : d.Tx) (b : Bytes) → get_or_new_bucket d b t ≡ ok u → ends_open b ≡ false
get_or_new_closed d t u b h = elim (Bool-cases (ends_open b)) [
  | inl open_key ↦ absurd (cc (get_or_new_open d t b open_key))
  | inr closed ↦ closed
]

create_has : (same before : Bool) → before ≡ true → (if same then true else before) ≡ true
create_has true before h = refl
create_has false before h = h

pub get_or_new_has :
    (d : Bolt) (w : BoltLaws d) (t u : d.Tx) (b c : Bytes)
    → get_or_new_bucket d b t ≡ ok u
    → d.has t c ≡ true
    → d.has u c ≡ true
get_or_new_has d w t u b c h before =
    let closed = get_or_new_closed d t u b h in
    elim (Bool-cases (d.has t b)) [
      | inl there ↦
          (let same : t ≡ u = cc (get_or_new_there d t b closed there) in rw (← same) before)
      | inr missing ↦
          (let made : d.create t b ≡ some u =
              or_fault_ok bolt_error _ u (cc (get_or_new_created d t b closed missing)) in
            w.has-create t u b c made ∙ create_has (bytes_beq b c) (d.has t c) before)
    ]
