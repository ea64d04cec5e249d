-- ===== src/Server/Announcing.antt =====
-- Which addresses the relay server announces: internal/server/server.go.
use chat_libp2p.Common.{
  ◌≡◌, ◌∙◌, refl, sym, ap, subst, Option, none, some, List, [], ◌∷◌, Bytes, bytes_beq,
  bytes_beq_iff, Bool-cases, ◌⊎◌, inl, inr,
}
use chat_libp2p.Server.{
  add_key, add_text, announced_texts, add_parsed, parse_texts, announced_addrs,
}

abbrev pub Has : {A : Type 0} → A → List A → Type 0
Has a [] = ⊥
Has a (b ∷ bs) = (a ≡ b) ⊎ Has a bs

module _ {A : Type 0} (ip4 : A → Option Bytes) (text : A → Bytes) (parse : Bytes → Option A)
    (replace_all : Bytes → Bytes → Bytes → Bytes) where
  Has-add_key : (k : Bytes) (js : List Bytes) → Has k (add_key ip4 text parse replace_all k js)
  unfolding add_key
  Has-add_key k [] = inl refl
  Has-add_key k (j ∷ js) = elim (Bool-cases (bytes_beq k j)) [
    | inl same ↦ rw same (inl ((bytes_beq_iff k j).0 same))
    | inr other ↦ rw other (inr (Has-add_key k js))
  ]

  keeps_key :
      (k i : Bytes) (js : List Bytes) → Has i js → Has i (add_key ip4 text parse replace_all k js)
  unfolding add_key
  keeps_key k i [] h = elim h [ ]
  keeps_key k i (j ∷ js) h = elim (Bool-cases (bytes_beq k j)) [
    | inl same ↦ rw same h
    | inr other ↦ rw other (elim h [ inl e ↦ inl e | inr r ↦ inr (keeps_key k i js r) ])
  ]

  keeps_text :
      (public_ip : Bytes) (a : A) (o : Option Bytes) (i : Bytes) (js : List Bytes)
      → Has i js
      → Has i (add_text ip4 text parse replace_all public_ip a o js)
  unfolding add_text
  keeps_text public_ip a none i js h = h
  keeps_text public_ip a (some ip) i js h = keeps_key (replace_all (text a) ip public_ip) i js h

  keeps_texts :
      (public_ip : Bytes) (as' : List A) (i : Bytes) (js : List Bytes)
      → Has i js
      → Has i (announced_texts ip4 text parse replace_all public_ip as' js)
  unfolding announced_texts
  keeps_texts public_ip [] i js h = h
  keeps_texts public_ip (a ∷ as') i js h =
      keeps_texts public_ip as' i _ (keeps_text public_ip a (ip4 a) i js h)

  adds_text :
      (public_ip : Bytes) (a : A) (ip : Bytes) (o : Option Bytes) (js : List Bytes)
      → o ≡ some ip
      → Has
          (replace_all (text a) ip public_ip)
          (add_text ip4 text parse replace_all public_ip a o js)
  adds_text public_ip a ip o js e =
      subst
        (λ x.
          Has (replace_all (text a) ip public_ip)
            (add_text ip4 text parse replace_all public_ip a x js))
        (sym e) (unfold add_text in Has-add_key (replace_all (text a) ip public_ip) js)

  adds_texts :
      (public_ip : Bytes) (as' : List A) (a : A) (ip : Bytes) (js : List Bytes)
      → Has a as'
      → ip4 a ≡ some ip
      → Has
          (replace_all (text a) ip public_ip)
          (announced_texts ip4 text parse replace_all public_ip as' js)
  unfolding announced_texts
  adds_texts public_ip [] a ip js h e = elim h [ ]
  adds_texts public_ip (b ∷ as') a ip js (inl same) e = keeps_texts public_ip as' _ _ (
      subst
        (λ x.
          Has (replace_all (text a) ip public_ip)
            (add_text ip4 text parse replace_all public_ip x (ip4 x) js))
        same (adds_text public_ip a ip (ip4 a) js e))
  adds_texts public_ip (b ∷ as') a ip js (inr later) e = adds_texts public_ip as' a ip _ later e

  keeps_parsed :
      (a : A) (o : Option A) (as' : List A)
      → Has a as'
      → Has a (add_parsed ip4 text parse replace_all o as')
  unfolding add_parsed
  keeps_parsed a none as' h = h
  keeps_parsed a (some b) as' h = inr h

  parses_text :
      (b : A) (t : Bytes) (ts : List Bytes)
      → Has t ts
      → parse t ≡ some b
      → Has b (parse_texts ip4 text parse replace_all ts)
  unfolding parse_texts
  parses_text b t [] h e = elim h [ ]
  parses_text b t (u ∷ ts) (inl same) e =
      subst
        (λ o.
          Has b
            (add_parsed ip4 text parse replace_all o (parse_texts ip4 text parse replace_all ts)))
        (sym (ap parse (sym same) ∙ e)) (unfold add_parsed in inl refl)
  parses_text b t (u ∷ ts) (inr later) e = keeps_parsed b (parse u) _ (parses_text b t ts later e)

  -- For every address of the node with an IPv4 part, the server announces the address that reads like it
  -- with the public address in that part's place, if that reads as an address, in whatever order the
  -- runtime goes through the set of texts.
  pub announced_addrs_lem :
      (order : List Bytes → List Bytes) (public_ip : Bytes) (addrs : List A) (a b : A) (ip : Bytes)
      → ((k : Bytes) (ks : List Bytes) → Has k ks → Has k (order ks))
      → Has a addrs
      → ip4 a ≡ some ip
      → parse (replace_all (text a) ip public_ip) ≡ some b
      → Has b (announced_addrs ip4 text parse replace_all order public_ip addrs)
  unfolding announced_addrs
  announced_addrs_lem order public_ip addrs a b ip all h e p =
      parses_text b (replace_all (text a) ip public_ip) _
        (all _ _ (adds_texts public_ip addrs a ip [] h e)) p
