-- ===== src/Examples/Sorting.antt =====
-- A sort that meets the law of sort.Sort, for PeerList of internal/client/client.go.
use mathlib.Core.List.{Perm}
use mathlib.Core.List.Perm
use chat_libp2p.Common.{
  ℕ, ◌≡◌, refl, arith, Bool, true, false, Option, none, some, List, [], ◌∷◌, Bytes, bytes_lt,
  bytes_lt_asym, All, map-All,
}
use chat_libp2p.Peers.{Listed, less_last, less_pin, less}
use chat_libp2p.Client.{Entry, listed}
use chat_libp2p.Client.Listing.{IsAscending, SortLaws}

bytes_lt_coarse :
    (xs ys zs : Bytes) → bytes_lt ys xs ≡ false → bytes_lt zs ys ≡ false → bytes_lt zs xs ≡ false
bytes_lt_coarse [] [] [] h k = refl
bytes_lt_coarse [] [] (z ∷ zs) h k = refl
bytes_lt_coarse [] (y ∷ ys) [] h k = cc
bytes_lt_coarse [] (y ∷ ys) (z ∷ zs) h k = refl
bytes_lt_coarse (x ∷ xs) [] zs h k = cc
bytes_lt_coarse (x ∷ xs) (y ∷ ys) [] h k = cc
bytes_lt_coarse (x ∷ xs) (y ∷ ys) (z ∷ zs) h k = ground (arith, bytes_lt_coarse xs ys zs)

less_last_coarse :
    (i j k : Bytes) (a b c : Option ℕ)
    → less_last j i b a ≡ false
    → less_last k j c b ≡ false
    → less_last k i c a ≡ false
unfolding less_last
less_last_coarse i j k none none none p q = bytes_lt_coarse i j k p q
less_last_coarse i j k none none (some c) p q = cc
less_last_coarse i j k none (some b) c p q = cc
less_last_coarse i j k (some a) none none p q = refl
less_last_coarse i j k (some a) none (some c) p q = cc
less_last_coarse i j k (some a) (some b) none p q = refl
less_last_coarse i j k (some a) (some b) (some c) p q = ground arith

less_coarse : (p q r : Listed) → less q p ≡ false → less r q ≡ false → less r p ≡ false
unfolding less less_pin
less_coarse p q r h k =
    ground (arith, less_last_coarse p.peer.id q.peer.id r.peer.id p.last q.last r.last)

less_last_asym :
    (i j : Bytes) (a b : Option ℕ) → less_last i j a b ≡ true → less_last j i b a ≡ false
unfolding less_last
less_last_asym i j none none p = bytes_lt_asym i j p
less_last_asym i j none (some b) p = cc
less_last_asym i j (some a) none p = refl
less_last_asym i j (some a) (some b) p = ground arith

less_asym : (p q : Listed) → less p q ≡ true → less q p ≡ false
unfolding less less_pin
less_asym p q h = ground (arith, less_last_asym p.peer.id q.peer.id p.last q.last)

-- Insertion sort by the order of PeerList.
unfoldable pub place : Bool → Entry → Entry → List Entry → List Entry → List Entry
place true e f fs rest = f ∷ rest
place false e f fs rest = e ∷ f ∷ fs

unfoldable pub insert_entry : Entry → List Entry → List Entry
insert_entry e [] = e ∷ []
insert_entry e (f ∷ fs) = place (less (listed f) (listed e)) e f fs (insert_entry e fs)

unfoldable pub sorted : List Entry → List Entry
sorted [] = []
sorted (e ∷ es) = insert_entry e (sorted es)

place-perm :
    (b : Bool) (e f : Entry) (fs rest : List Entry)
    → Perm rest (e ∷ fs)
    → Perm (place b e f fs rest) (e ∷ f ∷ fs)
unfolding place
place-perm true e f fs rest h = Perm.trans (Perm.cons f h) (Perm.swap e f fs)
place-perm false e f fs rest h = Perm.refl (e ∷ f ∷ fs)

insert-perm : (e : Entry) (fs : List Entry) → Perm (insert_entry e fs) (e ∷ fs)
unfolding insert_entry
insert-perm e [] = Perm.refl (e ∷ [])
insert-perm e (f ∷ fs) =
    place-perm (less (listed f) (listed e)) e f fs (insert_entry e fs) (insert-perm e fs)

abbrev After : Entry → List Entry → Type 0
After a es = All (λ f. less (listed f) (listed a) ≡ false) es

place-After :
    (b : Bool) (a e f : Entry) (fs rest : List Entry)
    → less (listed e) (listed a) ≡ false
    → After a (f ∷ fs)
    → After a rest
    → After a (place b e f fs rest)
unfolding place
place-After true a e f fs rest h hs k = (hs.0, k)
place-After false a e f fs rest h hs k = (h, hs)

insert-After :
    (a e : Entry) (fs : List Entry)
    → less (listed e) (listed a) ≡ false
    → After a fs
    → After a (insert_entry e fs)
unfolding insert_entry
insert-After a e [] h hs = (h, tt)
insert-After a e (f ∷ fs) h hs =
    place-After (less (listed f) (listed e)) a e f fs (insert_entry e fs) h hs
      (insert-After a e fs h hs.1)

place-IsAscending :
    (b : Bool) (e f : Entry) (fs rest : List Entry)
    → less (listed f) (listed e) ≡ b
    → IsAscending (f ∷ fs)
    → IsAscending rest
    → (less (listed e) (listed f) ≡ false → After f rest)
    → IsAscending (place b e f fs rest)
unfolding place
place-IsAscending true e f fs rest h hs k after = (after (less_asym (listed f) (listed e) h), k)
place-IsAscending false e f fs rest h hs k after =
    ((h, map-All fs (λ x l. less_coarse (listed e) (listed f) (listed x) h l) hs.0), hs)

insert-IsAscending :
    (e : Entry) (fs : List Entry) → IsAscending fs → IsAscending (insert_entry e fs)
unfolding insert_entry
insert-IsAscending e [] h = (tt, tt)
insert-IsAscending e (f ∷ fs) h =
    place-IsAscending (less (listed f) (listed e)) e f fs (insert_entry e fs) refl h
      (insert-IsAscending e fs h.1) (λ l. insert-After f e fs l h.0)

sorted-perm : (es : List Entry) → Perm (sorted es) es
unfolding sorted
sorted-perm [] = Perm.refl []
sorted-perm (e ∷ es) = Perm.trans (insert-perm e (sorted es)) (Perm.cons e (sorted-perm es))

sorted-IsAscending : (es : List Entry) → IsAscending (sorted es)
unfolding sorted
sorted-IsAscending [] = tt
sorted-IsAscending (e ∷ es) = insert-IsAscending e (sorted es) (sorted-IsAscending es)

pub sorted_laws : SortLaws sorted
sorted_laws = record { sort-perm = sorted-perm; sort-IsAscending = sorted-IsAscending }
