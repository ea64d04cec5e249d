-- ===== src/Messages/Claims.antt =====
-- internal/client/service/message.go: which messages of a peer AsyncSend has goroutines for. `recorded` is
-- the peer's map in `sending`, and `running` has the numbers that the goroutines were started with.
pub mod Distinct
use chat_libp2p.Common.{
  ℕ, ◌≡◌, ◌≢◌, ◌∙◌, refl, sym, ap, arith, Bool, true, false, ◌||◌, List, [], ◌∷◌, ◌++◌, put,
  put_rel, ◌==◌, ==_iff, ==_refl, if◌then◌else◌, Bool-cases, inl, inr,
}

pub record Claims : Type 0 where
  pub recorded : ℕ → Bool
  pub running : List ℕ

abbrev pub no_claims : Claims
no_claims = record { recorded = λ i. false; running = [] }

-- LoadOrStore of a number, and the goroutine that is started if it was not there.
unfoldable pub claim_new : Bool → ℕ → Claims → Claims
claim_new true id s = s
claim_new false id s = record { recorded = put id true s.recorded; running = id ∷ s.running }

unfoldable pub claim : ℕ → Claims → Claims
unfolding claim_new
claim id s = claim_new (s.recorded id) id s

abbrev pub has : ℕ → List ℕ → Bool
has i [] = false
has i (x ∷ xs) = (i == x) || has i xs

abbrev pub drop_here : Bool → ℕ → List ℕ → List ℕ → List ℕ
drop_here true x xs rest = xs
drop_here false x xs rest = x ∷ rest

-- The first of the numbers that is equal is taken out.
unfoldable pub drop_one : ℕ → List ℕ → List ℕ
drop_one i [] = []
drop_one i (x ∷ xs) = drop_here (i == x) x xs (drop_one i xs)

-- The end of a goroutine, with its deferred recorder.Delete.
unfoldable pub release_one : Bool → ℕ → Claims → Claims
unfolding drop_one
release_one false id s = s
release_one true id s = record {
  recorded = put id false s.recorded;
  running = drop_one id s.running;
}

unfoldable pub release : ℕ → Claims → Claims
unfolding release_one
release id s = release_one (has id s.running) id s

-- A LoadOrStore of some call of AsyncSend, or the end of a goroutine.
pub data Turn : Type 0 where
  starts : ℕ → Turn
  ends : ℕ → Turn

unfoldable pub turn : Turn → Claims → Claims
unfolding claim release
turn (starts id) s = claim id s
turn (ends id) s = release id s

unfoldable pub turns : List Turn → Claims → Claims
unfolding turn
turns [] s = s
turns (t ∷ ts) s = turns ts (turn t s)
