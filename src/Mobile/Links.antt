-- ===== src/Mobile/Links.antt =====
-- Walking the objects that a loop linked.
use chat_libp2p.Common.{
  ℕ, zero, suc, ◌+◌, ◌≡◌, ◌∙◌, refl, sym, ap, subst, arith, Option, none, some, List, [], ◌∷◌, ◌++◌,
  length, get_elem?, length-append,
}
use mathlib.Core.List.{append_assoc}
use chat_libp2p.Mobile.{Node, new_node, set_next, link_rest, link, walk}

module _ {ℓ} {A : Type ℓ} where
  -- The objects of a list from the place `k` on, each linked to the one after it.
  abbrev pointer : ℕ → List A → Option ℕ
  pointer k [] = none
  pointer k (x ∷ xs) = some k

  abbrev chain : ℕ → List A → List (Node A)
  chain k [] = []
  chain k (x ∷ xs) = record { value = x; next = pointer (suc k) xs } ∷ chain (suc k) xs

  length-chain : (k : ℕ) (xs : List A) → length (chain k xs) ≡ length xs
  length-chain k [] = refl
  length-chain k (x ∷ xs) = ap suc (length-chain (suc k) xs)

  pointer-append :
      (k : ℕ) (xs ys zs : List A) (y : A) → pointer k (xs ++ y ∷ ys) ≡ pointer k (xs ++ y ∷ zs)
  pointer-append k [] ys zs y = refl
  pointer-append k (x ∷ xs) ys zs y = refl

  set_next-chain :
      (front : List A) (x y : A) (k j : ℕ)
      → j ≡ suc (length front + k)
      → set_next (length front) j (chain k (front ++ x ∷ []) ++ new_node y ∷ [])
        ≡ chain k (front ++ x ∷ y ∷ [])
  unfolding set_next
  set_next-chain [] x y k j e =
      let e' : j ≡ suc k = omega arith in
      ap (λ i. record { value = x; next = some i } ∷ new_node y ∷ []) e'
  set_next-chain (z ∷ zs) x y k j e =
      let rest = set_next-chain zs x y (suc k) j (omega arith) in
      rw (pointer-append (suc k) zs [] (y ∷ []) x)
        (ap (λ t. record { value = z; next = pointer (suc k) (zs ++ x ∷ y ∷ []) } ∷ t) rest)

  link_rest-chain :
      (xs front : List A) (x : A)
      → link_rest xs (chain 0 (front ++ x ∷ [])) (length front) ≡ chain 0 (front ++ x ∷ xs)
  unfolding link_rest
  link_rest-chain [] front x = refl
  link_rest-chain (y ∷ ys) front x =
      let size : length (chain 0 (front ++ x ∷ [])) ≡ suc (length front) =
        omega (arith, length-chain 0 (front ++ x ∷ []), length-append front (x ∷ [])) in
      let step : set_next (length front) (length (chain 0 (front ++ x ∷ [])))
            (chain 0 (front ++ x ∷ []) ++ new_node y ∷ [])
          ≡ chain 0 ((front ++ x ∷ []) ++ y ∷ []) =
        set_next-chain front x y 0 _ (omega (arith, size))
        ∙ ap (chain 0) (sym (append_assoc front (x ∷ []) (y ∷ []))) in
      let last : length (chain 0 (front ++ x ∷ [])) ≡ length (front ++ x ∷ []) =
        length-chain 0 (front ++ x ∷ []) in
      rw step (rw last (link_rest-chain ys (front ++ x ∷ []) y))
      ∙ ap (chain 0) (append_assoc front (x ∷ []) (y ∷ ys))

  link-chain : (xs : List A) → link xs ≡ (chain 0 xs, pointer 0 xs)
  unfolding link
  link-chain [] = refl
  link-chain (x ∷ xs) = ap (λ h. (h, some 0)) (link_rest-chain xs [] x)

  get_elem?-middle :
      (pre : List (Node A)) (n : Node A) (rest : List (Node A))
      → get_elem? (pre ++ n ∷ rest) (length pre) ≡ some n
  get_elem?-middle [] n rest = refl
  get_elem?-middle (m ∷ pre) n rest = get_elem?-middle pre n rest

  step :
      (fuel : ℕ) (heap : List (Node A)) (k : ℕ) (n : Node A) (xs : List A)
      → get_elem? heap k ≡ some n
      → walk fuel heap n.next ≡ xs
      → walk (suc fuel) heap (some k) ≡ n.value ∷ xs
  unfolding walk
  step fuel heap k n xs got rest = rw (got, walk) (ap (λ t. n.value ∷ t) rest)

  walk-chain :
      (xs : List A) (pre : List (Node A)) (fuel k : ℕ)
      → k ≡ length pre
      → fuel ≡ length xs
      → walk fuel (pre ++ chain k xs) (pointer k xs) ≡ xs
  unfolding walk
  walk-chain [] pre fuel k e f = refl
  walk-chain (x ∷ xs) pre zero k e f = absurd (omega arith)
  walk-chain (x ∷ xs) pre (suc fuel) k e f =
      let n : Node A = record { value = x; next = pointer (suc k) xs } in
      let heap : List (Node A) = pre ++ n ∷ chain (suc k) xs in
      let got : get_elem? heap k ≡ some n =
        subst (λ i. get_elem? heap i ≡ some n) (sym e)
          (get_elem?-middle pre n (chain (suc k) xs)) in
      let rest : walk fuel heap (pointer (suc k) xs) ≡ xs =
        ap (λ h. walk fuel h (pointer (suc k) xs))
          (sym (append_assoc pre (n ∷ []) (chain (suc k) xs)))
        ∙ walk-chain xs (pre ++ n ∷ []) fuel (suc k) (omega (arith, length-append pre (n ∷ [])))
            (omega arith) in
      step fuel heap k n xs got rest

  -- The objects that a loop links from a list, walked from the first one on, are the list's elements.
  pub walk-link : (xs : List A) → walk (length xs) (link xs).0 (link xs).1 ≡ xs
  walk-link xs =
      ap (λ r. walk (length xs) r.0 r.1) (link-chain xs) ∙ walk-chain xs [] (length xs) 0 refl refl
