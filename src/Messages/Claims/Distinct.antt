-- ===== src/Messages/Claims/Distinct.antt =====
-- A message of a peer has one goroutine at a time: internal/client/service/message.go.
use chat_libp2p.Common.{
  ℕ, ◌≡◌, ◌∙◌, refl, sym, ap, arith, Bool, true, false, List, [], ◌∷◌, put_rel, ◌==◌, ==_iff,
  ==_refl,
}
use chat_libp2p.Messages.Claims.{
  Claims, no_claims, claim_new, claim, has, drop_here, drop_one, release_one, release, Turn, starts,
  ends, turn, turns,
}

-- No number stands in the list twice.
abbrev pub IsDistinct : List ℕ → Type 0
IsDistinct [] = Unit {0}
IsDistinct (x ∷ xs) = (has x xs ≡ false) × IsDistinct xs

pub record IsClaimed (s : Claims) : Type 0 where
  pub distinct : IsDistinct s.running
  pub recorded-has : (i : ℕ) → s.recorded i ≡ has i s.running

has_next : (i x : ℕ) (xs : List ℕ) (b : Bool) → (i == x) ≡ false → has i xs ≡ b → has i (x ∷ xs) ≡ b
has_next i x xs b e h = ground arith

other_next :
    (b : Bool) (i j x : ℕ) (xs : List ℕ)
    → (j == x) ≡ b
    → (i == j) ≡ false
    → has i (drop_one j xs) ≡ has i xs
    → has i (drop_here b x xs (drop_one j xs)) ≡ has i (x ∷ xs)
other_next true i j x xs e ne h = ground arith
other_next false i j x xs e ne h = ground (arith, h)

has-drop_other : (i j : ℕ) (xs : List ℕ) → (i == j) ≡ false → has i (drop_one j xs) ≡ has i xs
unfolding drop_one
has-drop_other i j [] e = refl
has-drop_other i j (x ∷ xs) e = other_next (j == x) i j x xs refl e (has-drop_other i j xs e)

same_next :
    (b : Bool) (i x : ℕ) (xs : List ℕ)
    → (i == x) ≡ b
    → has x xs ≡ false
    → has i (drop_one i xs) ≡ false
    → has i (drop_here b x xs (drop_one i xs)) ≡ false
same_next true i x xs e n h = ap (λ j. has j xs) ((==_iff i x).0 e) ∙ n
same_next false i x xs e n h = has_next i x (drop_one i xs) false e h

has-drop_one : (i : ℕ) (xs : List ℕ) → IsDistinct xs → has i (drop_one i xs) ≡ false
unfolding drop_one
has-drop_one i [] d = refl
has-drop_one i (x ∷ xs) (n, d) = same_next (i == x) i x xs refl n (has-drop_one i xs d)

IsDistinct-drop_here :
    (b : Bool) (i x : ℕ) (xs : List ℕ)
    → (i == x) ≡ b
    → has x xs ≡ false
    → IsDistinct xs
    → IsDistinct (drop_one i xs)
    → IsDistinct (drop_here b x xs (drop_one i xs))
IsDistinct-drop_here true i x xs e n d h = d
IsDistinct-drop_here false i x xs e n d h = (has-drop_other x i xs (ground arith) ∙ n, h)

IsDistinct-drop_one : (i : ℕ) (xs : List ℕ) → IsDistinct xs → IsDistinct (drop_one i xs)
unfolding drop_one
IsDistinct-drop_one i [] d = tt
IsDistinct-drop_one i (x ∷ xs) (n, d) =
    IsDistinct-drop_here (i == x) i x xs refl n d (IsDistinct-drop_one i xs d)

IsClaimed-none : IsClaimed no_claims
IsClaimed-none = record { distinct = tt; recorded-has = λ i. refl }

IsClaimed-claim_new :
    (b : Bool) (id : ℕ) (s : Claims)
    → s.recorded id ≡ b
    → IsClaimed s
    → IsClaimed (claim_new b id s)
unfolding claim_new
IsClaimed-claim_new true id s e g = g
IsClaimed-claim_new false id s e g = record {
  distinct = (sym (g.recorded-has id) ∙ e, g.distinct);
  recorded-has =
      put_rel (λ i b. b ≡ has i (id ∷ s.running)) id true s.recorded (rw (==_refl id) refl)
        (λ i ne.
          g.recorded-has i ∙ sym (has_next i id s.running (has i s.running) (ground arith) refl));
}

IsClaimed-release_one :
    (b : Bool) (id : ℕ) (s : Claims) → IsClaimed s → IsClaimed (release_one b id s)
unfolding release_one
IsClaimed-release_one false id s g = g
IsClaimed-release_one true id s g = record {
  distinct = IsDistinct-drop_one id s.running g.distinct;
  recorded-has =
      put_rel (λ i b. b ≡ has i (drop_one id s.running)) id false s.recorded
        (sym (has-drop_one id s.running g.distinct))
        (λ i ne. g.recorded-has i ∙ sym (has-drop_other i id s.running (ground arith)));
}

IsClaimed-turn : (t : Turn) (s : Claims) → IsClaimed s → IsClaimed (turn t s)
unfolding turn claim release
IsClaimed-turn (starts id) s g = IsClaimed-claim_new (s.recorded id) id s refl g
IsClaimed-turn (ends id) s g = IsClaimed-release_one (has id s.running) id s g

IsClaimed-turns : (ts : List Turn) (s : Claims) → IsClaimed s → IsClaimed (turns ts s)
unfolding turns
IsClaimed-turns [] s g = g
IsClaimed-turns (t ∷ ts) s g = IsClaimed-turns ts (turn t s) (IsClaimed-turn t s g)

-- However calls of AsyncSend and the ends of their goroutines alternate, no message has two goroutines at
-- a time, and a number is recorded just while a goroutine runs for it.
pub turns-IsClaimed : (ts : List Turn) → IsClaimed (turns ts no_claims)
turns-IsClaimed ts = IsClaimed-turns ts no_claims IsClaimed-none
