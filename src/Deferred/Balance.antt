-- ===== src/Deferred/Balance.antt =====
-- Every run closes what it deferred to close, the last opened first.
use chat_libp2p.Common.{
  ℕ, ◌≡◌, ◌∙◌, refl, ap, Bool, true, false, List, [], ◌∷◌, ◌++◌, Option, none, some, ◌==◌,
  if◌then◌else◌, ==_refl,
}
use chat_libp2p.Deferred.{
  Resource, bolt, node, table, context, routed, ticker, Note, opened, closed, announced,
  manager_made, Call, Outcome, failed, Run, waiting, returned, Going, acquire, note, closings,
  finish, attempt,
}

abbrev pub number : Resource → ℕ
number bolt = 0
number node = 1
number table = 2
number context = 3
number routed = 4
number ticker = 5

-- A closing closes what was opened last.
abbrev pub close_top : Resource → List Resource → Option (List Resource)
close_top r [] = none
close_top r (h ∷ hs) = if number r == number h then some hs else none

abbrev pub replay_note : Note → Option (List Resource) → Option (List Resource)
replay_note n none = none
replay_note (opened r) (some hs) = some (r ∷ hs)
replay_note (closed r) (some hs) = close_top r hs
replay_note announced (some hs) = some hs
replay_note manager_made (some hs) = some hs

-- What is open after some notes; `none` if something is closed that was not opened last.
abbrev pub open_after : List Note → Option (List Resource) → Option (List Resource)
open_after [] o = o
open_after (n ∷ ns) o = open_after ns (replay_note n o)

pub open_after-append :
    (ns ms : List Note) (o : Option (List Resource))
    → open_after (ns ++ ms) o ≡ open_after ms (open_after ns o)
open_after-append [] ms o = refl
open_after-append (n ∷ ns) ms o = open_after-append ns ms (replay_note n o)

pub open_after-closings : (rs : List Resource) → open_after (closings rs) (some rs) ≡ some []
open_after-closings [] = refl
open_after-closings (r ∷ rs) =
    let top : close_top r (r ∷ rs) ≡ some rs = rw (==_refl (number r)) refl in
    ap (open_after (closings rs)) top ∙ open_after-closings rs

-- The notes of a run so far open what its deferred closings close.
abbrev pub IsOpen : Going → Type 0
IsOpen s = open_after s.notes (some []) ≡ some s.deferred

-- A run that returned has closed what it deferred to close.
abbrev pub IsClosed : Run → Type 0
IsClosed (waiting ns) = Unit {0}
IsClosed (returned o ns) = open_after ns (some []) ≡ some []

pub IsOpen-acquire : (r : Resource) (s : Going) → IsOpen s → IsOpen (acquire r s)
unfolding acquire
IsOpen-acquire r s h =
    open_after-append s.notes (opened r ∷ []) (some []) ∙ ap (open_after (opened r ∷ [])) h

pub IsOpen-note : (s : Going) → IsOpen s → IsOpen (note announced s)
unfolding note
IsOpen-note s h =
    open_after-append s.notes (announced ∷ []) (some []) ∙ ap (open_after (announced ∷ [])) h

pub IsOpen-made : (s : Going) → IsOpen s → IsOpen (note manager_made s)
unfolding note
IsOpen-made s h =
    open_after-append s.notes (manager_made ∷ []) (some []) ∙ ap (open_after (manager_made ∷ [])) h

pub IsClosed-finish : (o : Outcome) (s : Going) → IsOpen s → IsClosed (finish o s)
unfolding finish
IsClosed-finish o s h =
    open_after-append s.notes (closings s.deferred) (some [])
    ∙ ap (open_after (closings s.deferred)) h
    ∙ open_after-closings s.deferred

pub IsClosed-attempt :
    (b : Bool) (c : Call) (rest : Going → Run) (s : Going)
    → ((u : Going) → IsOpen u → IsClosed (rest u))
    → IsOpen s
    → IsClosed (attempt b c rest s)
unfolding attempt
IsClosed-attempt true c rest s f h = f s h
IsClosed-attempt false c rest s f h = IsClosed-finish (failed c) s h
