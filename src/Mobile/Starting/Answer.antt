-- ===== src/Mobile/Starting/Answer.antt =====
-- What Init returns: cmd/client/mobile/main.go.
use chat_libp2p.Common.{
  ◌≡◌, ◌∙◌, refl, ap, arith, Bool, true, false, ◌&&◌, ◌||◌, Option, none, some, List, [], ◌∷◌, ◌++◌,
  if◌then◌else◌,
}
use chat_libp2p.Deferred.{
  Note, announced, manager_made, opened, closed, Call, private_key, evm_address, bootstrap_list,
  image_dir, database_dir, new_bolt, resource_manager, new_node, new_table, bootstrap_table,
  save_self, Run, waiting, returned, Going, nothing, note, manager_made, finish, attempt,
}
use chat_libp2p.Deferred.Announced.{announcements, notes_of, once}
use chat_libp2p.Client.Runs.{Turn, serve, join_network, open_store, client_run}
use chat_libp2p.Client.Runs.Ready.{ready, client_run-ready}
use chat_libp2p.Mobile.Starting.{
  Round, is_announced, run_answers, round_answers, init_answers, init_result,
}

abbrev pub is_waiting : Run → Bool
is_waiting (waiting ns) = true
is_waiting (returned o ns) = false

-- A run that waits in its loop has come so far.
abbrev HasPassed : Bool → Run → Type 0
HasPassed b r = is_waiting r ≡ true → b ≡ true

and_left : (b : Bool) → (b && true) ≡ true → b ≡ true
and_left true h = refl
and_left false h = cc h

HasPassed-attempt :
    (b more : Bool) (c : Call) (rest : Going → Run) (s : Going)
    → ((u : Going) → HasPassed more (rest u))
    → HasPassed (b && more) (attempt b c rest s)
unfolding attempt finish
HasPassed-attempt true more c rest s f = f s
HasPassed-attempt false more c rest s f = λ h. cc h

module _ (ok : Call → Bool) (turns : List Turn) where
  HasPassed-serve : (s : Going) → HasPassed (ok save_self) (serve ok turns s)
  unfolding serve
  HasPassed-serve s h =
      and_left (ok save_self) (HasPassed-attempt (ok save_self) true save_self _ s (λ u k. refl) h)

  HasPassed-join_network :
      (s : Going)
      → HasPassed
          (ok new_node && (ok new_table && (ok bootstrap_table && ok save_self)))
          (join_network ok turns s)
  unfolding join_network
  HasPassed-join_network s = HasPassed-attempt (ok new_node) _ new_node _ s (λ u.
      HasPassed-attempt (ok new_table) _ new_table _ _ (λ v.
        HasPassed-attempt (ok bootstrap_table) _ bootstrap_table _ _ (λ w. HasPassed-serve _)))

  HasPassed-open_store :
      (s : Going)
      → HasPassed
          (ok new_bolt
            && (ok resource_manager
                && (ok new_node && (ok new_table && (ok bootstrap_table && ok save_self)))))
          (open_store ok turns s)
  unfolding open_store
  HasPassed-open_store s = HasPassed-attempt (ok new_bolt) _ new_bolt _ s (λ u.
      HasPassed-attempt (ok resource_manager) _ resource_manager _ _
        (λ v. HasPassed-join_network (note manager_made v)))

  HasPassed-client_run : HasPassed (ready ok) (client_run ok turns)
  unfolding client_run
  HasPassed-client_run = HasPassed-attempt (ok private_key) _ private_key _ nothing (λ s.
      HasPassed-attempt (ok evm_address) _ evm_address _ s (λ s.
        HasPassed-attempt (ok bootstrap_list) _ bootstrap_list _ s (λ s.
          HasPassed-attempt (ok image_dir) _ image_dir _ s
            (λ s. HasPassed-attempt (ok database_dir) _ database_dir _ s HasPassed-open_store))))

announced_once : (ns : List Note) (b : Bool) → announcements ns ≡ once b → is_announced ns ≡ b
announced_once [] true h = absurd (omega (arith, h))
announced_once [] false h = refl
announced_once (announced ∷ ns) true h = refl
announced_once (announced ∷ ns) false h = absurd (omega (arith, h))
announced_once (opened r ∷ ns) b h = announced_once ns b h
announced_once (manager_made ∷ ns) b h = announced_once ns b h
announced_once (closed r ∷ ns) b h = announced_once ns b h

told_first :
    (b first : Bool) (r : Run)
    → HasPassed b r
    → (rest : List Bool) × (run_answers b first r ≡ (b && (first || is_waiting r)) ∷ rest)
unfolding run_answers
told_first true true (waiting ns) h = ([], refl)
told_first true false (waiting ns) h = ([], refl)
told_first false first (waiting ns) h = cc (h refl)
told_first true true (returned o ns) h = (false ∷ [], refl)
told_first true false (returned o ns) h = ([], refl)
told_first false first (returned o ns) h = ([], refl)

load_first :
    (loads a : Bool) (rest : List Bool)
    → (more : List Bool) × ((if loads then a ∷ rest else false ∷ a ∷ rest) ≡ (loads && a) ∷ more)
load_first true a rest = (rest, refl)
load_first false a rest = (a ∷ rest, refl)

run_announced : (r : Round) → is_announced (notes_of (client_run r.calls r.turns)) ≡ ready r.calls
run_announced r =
    announced_once (notes_of (client_run r.calls r.turns)) (ready r.calls)
      (client_run-ready r.calls r.turns)

round_first :
    (r : Round)
    → (more : List Bool) × (round_answers r
        ≡ (r.loads && (ready r.calls && (r.nil_first || is_waiting (client_run r.calls r.turns))))
          ∷ more)
unfolding round_answers
round_first r =
    let run = client_run r.calls r.turns in
    let (rest, told) =
      told_first (ready r.calls) r.nil_first run (HasPassed-client_run r.calls r.turns) in
    let (more, loaded) =
      load_first r.loads (ready r.calls && (r.nil_first || is_waiting run)) rest in
    (
      more,
      ap
            (λ b.
              if r.loads
              then run_answers b r.nil_first run
              else false ∷ run_answers b r.nil_first run)
            (run_announced r)
          ∙ ap (λ as'. if r.loads then as' else false ∷ as') told
          ∙ loaded,
    )

-- Init returns after the first client, whatever follows: without an error just when its configuration is
-- loaded, none of the calls of its Run returns an error, and its Run has not returned before the goroutine
-- that waits for OK has told so.
pub init_result-ready :
    (r : Round) (rs : List Round)
    → init_result (r ∷ rs)
      ≡ some
          (r.loads && (ready r.calls && (r.nil_first || is_waiting (client_run r.calls r.turns))))
unfolding init_result init_answers
init_result-ready r rs =
    let (more, first) = round_first r in
    ap (λ as'. elim (as' ++ init_answers rs) as (λ x. Option Bool) [ [] ↦ none | a ∷ bs ↦ some a ])
      first
