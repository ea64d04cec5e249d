-- ===== src/Deferred/Unowned.antt =====
-- When a run leaves a resource manager that no node took over.
use chat_libp2p.Common.{◌≡◌, ◌∙◌, refl, ap, Bool, true, false, List, [], ◌∷◌, ◌++◌, ◌&&◌, not}
use chat_libp2p.Deferred.{
  Resource, bolt, node, table, context, routed, ticker, Note, opened, closed, announced,
  manager_made, Call, new_node, Outcome, failed, Run, Going, acquire, note, closings, finish,
  attempt,
}
use chat_libp2p.Deferred.Announced.{notes_of}

-- Whether there is such a manager after some notes, when there was one before them or not.
abbrev pub unowned : List Note → Bool → Bool
unowned [] b = b
unowned (manager_made ∷ ns) b = unowned ns true
unowned (opened node ∷ ns) b = unowned ns false
unowned (_ ∷ ns) b = unowned ns b

unowned-append : (ns ms : List Note) (b : Bool) → unowned (ns ++ ms) b ≡ unowned ms (unowned ns b)
unowned-append [] ms b = refl
unowned-append (manager_made ∷ ns) ms b = unowned-append ns ms true
unowned-append (announced ∷ ns) ms b = unowned-append ns ms b
unowned-append (closed r ∷ ns) ms b = unowned-append ns ms b
unowned-append (opened bolt ∷ ns) ms b = unowned-append ns ms b
unowned-append (opened node ∷ ns) ms b = unowned-append ns ms false
unowned-append (opened table ∷ ns) ms b = unowned-append ns ms b
unowned-append (opened context ∷ ns) ms b = unowned-append ns ms b
unowned-append (opened routed ∷ ns) ms b = unowned-append ns ms b
unowned-append (opened ticker ∷ ns) ms b = unowned-append ns ms b

unowned-closings : (rs : List Resource) (b : Bool) → unowned (closings rs) b ≡ b
unowned-closings [] b = refl
unowned-closings (r ∷ rs) b = unowned-closings rs b

abbrev pub HasUnowned : Bool → Going → Type 0
HasUnowned x s = unowned s.notes false ≡ x

abbrev pub Leaves : Bool → Run → Type 0
Leaves x r = unowned (notes_of r) false ≡ x

pub unowned-note :
    (x : Bool) (n : Note) (s : Going) → HasUnowned x s → HasUnowned (unowned (n ∷ []) x) (note n s)
unfolding note
unowned-note x n s h = unowned-append s.notes (n ∷ []) false ∙ ap (unowned (n ∷ [])) h

pub unowned-acquire :
    (x : Bool) (r : Resource) (s : Going)
    → HasUnowned x s
    → HasUnowned (unowned (opened r ∷ []) x) (acquire r s)
unfolding acquire
unowned-acquire x r s h =
    unowned-append s.notes (opened r ∷ []) false ∙ ap (unowned (opened r ∷ [])) h

pub Leaves-finish : (x : Bool) (o : Outcome) (s : Going) → HasUnowned x s → Leaves x (finish o s)
unfolding finish
Leaves-finish x o s h =
    unowned-append s.notes (closings s.deferred) false
    ∙ unowned-closings s.deferred (unowned s.notes false)
    ∙ h

-- A call before the manager is there, with what the rest leaves.
pub Leaves-attempt :
    (b more : Bool) (c : Call) (rest : Going → Run) (s : Going)
    → ((u : Going) → HasUnowned false u → Leaves more (rest u))
    → HasUnowned false s
    → Leaves (b && more) (attempt b c rest s)
unfolding attempt
Leaves-attempt true more c rest s f h = f s h
Leaves-attempt false more c rest s f h = Leaves-finish false (failed c) s h

-- A call after the node has taken the manager.
pub Leaves-later :
    (b : Bool) (c : Call) (rest : Going → Run) (s : Going)
    → ((u : Going) → HasUnowned false u → Leaves false (rest u))
    → HasUnowned false s
    → Leaves false (attempt b c rest s)
unfolding attempt
Leaves-later true c rest s f h = f s h
Leaves-later false c rest s f h = Leaves-finish false (failed c) s h

-- The call of libp2p.New.
pub Leaves-new_node :
    (b : Bool) (rest : Going → Run) (s : Going)
    → ((u : Going) → HasUnowned true u → Leaves false (rest u))
    → HasUnowned true s
    → Leaves (not b) (attempt b new_node rest s)
unfolding attempt
Leaves-new_node true rest s f h = f s h
Leaves-new_node false rest s f h = Leaves-finish true (failed new_node) s h
