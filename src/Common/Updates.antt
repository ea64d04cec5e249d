-- ===== src/Common/Updates.antt =====
-- Functions of a number that are changed at one place.
use Prim.Native.Nat.{ℕ}
use mathlib.Core.Path.{◌≡◌, refl, sym, subst}
use mathlib.Core.Logic.{◌≢◌, inl, inr}
use chat_libp2p.Common.Tests.{◌==◌, ==_iff, ==_refl, Bool-cases, if◌then◌else◌}

abbrev pub put {ℓ} : {A : Type ℓ} → ℕ → A → (ℕ → A) → ℕ → A
put t a f u = if u == t then a else f u

pub put_same {ℓ} : {A : Type ℓ} (t : ℕ) (a : A) (f : ℕ → A) → put t a f t ≡ a
put_same t a f = rw (==_refl t) refl

-- What holds of the new value at its place, and of the old ones elsewhere, holds after the change.
pub put_rel {ℓ κ} :
    {A : Type ℓ} (P : ℕ → A → Type κ) (t : ℕ) (a : A) (f : ℕ → A)
    → P t a
    → ((u : ℕ) → u ≢ t → P u (f u))
    → (u : ℕ) → P u (put t a f u)
put_rel P t a f p q u = elim (Bool-cases (u == t)) [
  | inl same ↦ rw same (subst (λ x. P x a) (sym ((==_iff u t).0 same)) p)
  | inr other ↦ rw other (q u (λ e. absurd (cc (other, (==_iff u t).1 e))))
]
