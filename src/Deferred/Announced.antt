-- ===== src/Deferred/Announced.antt =====
-- How often a run closes the channel OK.
use chat_libp2p.Common.{ℕ, ◌+◌, ◌≡◌, ◌∙◌, refl, arith, Bool, true, false, List, [], ◌∷◌, ◌++◌, ◌&&◌}
use chat_libp2p.Deferred.{
  Resource, Note, opened, closed, announced, manager_made, Call, Outcome, failed, Run, waiting,
  returned, Going, acquire, note, closings, finish, attempt,
}

abbrev pub announcements : List Note → ℕ
announcements [] = 0
announcements (announced ∷ ns) = 1 + announcements ns
announcements (_ ∷ ns) = announcements ns

abbrev pub notes_of : Run → List Note
notes_of (waiting ns) = ns
notes_of (returned o ns) = ns

abbrev pub once : Bool → ℕ
once true = 1
once false = 0

announcements-append :
    (ns ms : List Note) → announcements (ns ++ ms) ≡ announcements ns + announcements ms
announcements-append [] ms = omega arith
announcements-append (opened r ∷ ns) ms = announcements-append ns ms
announcements-append (closed r ∷ ns) ms = announcements-append ns ms
announcements-append (announced ∷ ns) ms = omega (arith, announcements-append ns ms)
announcements-append (manager_made ∷ ns) ms = announcements-append ns ms

announcements-closings : (rs : List Resource) → announcements (closings rs) ≡ 0
announcements-closings [] = refl
announcements-closings (r ∷ rs) = announcements-closings rs

-- OK was closed so many times.
abbrev pub HasAnnounced : ℕ → Going → Type 0
HasAnnounced n s = announcements s.notes ≡ n

abbrev pub Announces : ℕ → Run → Type 0
Announces n r = announcements (notes_of r) ≡ n

pub HasAnnounced-acquire :
    (n : ℕ) (r : Resource) (s : Going) → HasAnnounced n s → HasAnnounced n (acquire r s)
unfolding acquire
HasAnnounced-acquire n r s h = announcements-append s.notes (opened r ∷ []) ∙ omega (arith, h)

pub HasAnnounced-note :
    (n : ℕ) (s : Going) → HasAnnounced n s → HasAnnounced (n + 1) (note announced s)
unfolding note
HasAnnounced-note n s h = announcements-append s.notes (announced ∷ []) ∙ omega (arith, h)

pub HasAnnounced-made :
    (n : ℕ) (s : Going) → HasAnnounced n s → HasAnnounced n (note manager_made s)
unfolding note
HasAnnounced-made n s h = announcements-append s.notes (manager_made ∷ []) ∙ omega (arith, h)

pub Announces-finish :
    (n : ℕ) (o : Outcome) (s : Going) → HasAnnounced n s → Announces n (finish o s)
unfolding finish
Announces-finish n o s h =
    announcements-append s.notes (closings s.deferred)
    ∙ omega (arith, h, announcements-closings s.deferred)

pub Announces-attempt :
    (b more : Bool) (c : Call) (rest : Going → Run) (s : Going)
    → ((u : Going) → HasAnnounced 0 u → Announces (once more) (rest u))
    → HasAnnounced 0 s
    → Announces (once (b && more)) (attempt b c rest s)
unfolding attempt
Announces-attempt true more c rest s f h = f s h
Announces-attempt false more c rest s f h = Announces-finish 0 (failed c) s h
