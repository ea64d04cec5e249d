-- ===== src/Mobile/Starting.antt =====
-- cmd/client/mobile/main.go: the goroutine of Init, which runs one client after the other, and what Init
-- returns: the first value that is put into `result`, which has one place.
pub mod Answer
use chat_libp2p.Common.{
  ℕ, Bool, true, false, Option, none, some, List, [], ◌∷◌, ◌++◌, ◌==◌, if◌then◌else◌,
}
use chat_libp2p.Deferred.{
  Note, announced, manager_made, opened, closed, Call, Run, waiting, returned,
}
use chat_libp2p.Deferred.Announced.{notes_of}
use chat_libp2p.Client.Runs.{Turn, client_run}

-- A client: whether its configuration loads, what the calls of its Run return and its loop finds, and
-- which comes first if Run returns after OK was closed: what the goroutine that waits for OK puts, or the
-- error of Run.
pub record Round : Type 0 where
  pub loads : Bool
  pub calls : Call → Bool
  pub turns : List Turn
  pub nil_first : Bool

abbrev pub is_announced : List Note → Bool
is_announced [] = false
is_announced (announced ∷ ns) = true
is_announced (opened r ∷ ns) = is_announced ns
is_announced (manager_made ∷ ns) = is_announced ns
is_announced (closed r ∷ ns) = is_announced ns

-- What is put into `result` by Run and the goroutine that waits for OK; `true` is nil.
unfoldable pub run_answers : Bool → (nil_first : Bool) → Run → List Bool
run_answers false first (waiting ns) = []
run_answers true first (waiting ns) = true ∷ []
run_answers false first (returned o ns) = false ∷ []
run_answers true true (returned o ns) = true ∷ false ∷ []
run_answers true false (returned o ns) = false ∷ []

-- A round of the loop; an error of LoadConfig does not end it.
unfoldable pub round_answers : Round → List Bool
unfolding run_answers client_run
round_answers r =
    let run = client_run r.calls r.turns in
    let told = run_answers (is_announced (notes_of run)) r.nil_first run in
    if r.loads then told else false ∷ told

unfoldable pub init_answers : List Round → List Bool
unfolding round_answers
init_answers [] = []
init_answers (r ∷ rs) = round_answers r ++ init_answers rs

-- Init, once its loop has run so many rounds: nothing while it waits.
unfoldable pub init_result : List Round → Option Bool
unfolding init_answers
init_result rs = elim (init_answers rs) [ [] ↦ none | a ∷ as' ↦ some a ]
