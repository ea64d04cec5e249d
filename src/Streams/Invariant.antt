-- ===== src/Streams/Invariant.antt =====
-- Every cached stream belongs to the peer that it is cached for, and its read loop runs.
use chat_libp2p.Common.{
  ℕ, ◌≡◌, ◌≢◌, ◌∙◌, ◌⊎◌, inl, inr, refl, sym, ap, arith, Bool, true, false, Option, none, some,
  List, [], ◌∷◌, ◌==◌, ==_iff, if◌then◌else◌, Bytes, lookup, remove, lookup-remove, bytes_eq,
  bytes_beq, bytes_beq_iff, Bool-cases,
}
use chat_libp2p.Streams.{Stream, Manager, handle, is_stream, end_loop, without}
use chat_libp2p.Streams.Choice.{handle_lem}

abbrev pub In : Stream → List Stream → Type 0
In x [] = ⊥
In x (y ∷ ys) = (x ≡ y) ⊎ In x ys

abbrev pub IsFresh : ℕ → List Stream → Type 0
IsFresh sid [] = Unit {0}
IsFresh sid (y ∷ ys) = (y.sid ≢ sid) × IsFresh sid ys

abbrev pub IsDistinct : List Stream → Type 0
IsDistinct [] = Unit {0}
IsDistinct (y ∷ ys) = IsFresh y.sid ys × IsDistinct ys

pub record IsManager (m : Manager) : Type 0 where
  pub distinct : IsDistinct m.loops
  pub running :
      (peer : Bytes) (x : Stream)
      → lookup peer m.streams ≡ some x
      → (x.remote ≡ peer) × In x m.loops

IsFresh-not_In : (sid : ℕ) (x : Stream) (xs : List Stream) → IsFresh sid xs → In x xs → x.sid ≢ sid
IsFresh-not_In sid x [] f i e = absurd i
IsFresh-not_In sid x (y ∷ ys) f (inl p) e = absurd (f.0 (ap (λ t. t.sid) (sym p) ∙ e))
IsFresh-not_In sid x (y ∷ ys) f (inr i) e = IsFresh-not_In sid x ys f.1 i e

-- Two running streams of one identity are one stream.
same_of_sid :
    (x y : Stream) (zs : List Stream) → IsDistinct zs → In x zs → In y zs → x.sid ≡ y.sid → x ≡ y
same_of_sid x y [] d i j e = absurd i
same_of_sid x y (z ∷ zs) d (inl p) (inl q) e = p ∙ sym q
same_of_sid x y (z ∷ zs) d (inl p) (inr j) e =
    absurd (IsFresh-not_In z.sid y zs d.0 j (sym e ∙ ap (λ t. t.sid) p))
same_of_sid x y (z ∷ zs) d (inr i) (inl q) e =
    absurd (IsFresh-not_In z.sid x zs d.0 i (e ∙ ap (λ t. t.sid) q))
same_of_sid x y (z ∷ zs) d (inr i) (inr j) e = same_of_sid x y zs d.1 i j e

In-without : (x y : Stream) (zs : List Stream) → y.sid ≢ x.sid → In y zs → In y (without x zs)
In-without x y [] h i = absurd i
In-without x y (z ∷ zs) h (inl p) = elim (Bool-cases (z.sid == x.sid)) [
  | inl same ↦ absurd (h (ap (λ t. t.sid) p ∙ (==_iff z.sid x.sid).0 same))
  | inr other ↦ rw other (inl p)
]
In-without x y (z ∷ zs) h (inr i) = ground (arith, In-without x y zs h i)

IsFresh-without :
    (sid : ℕ) (x : Stream) (zs : List Stream) → IsFresh sid zs → IsFresh sid (without x zs)
IsFresh-without sid x [] f = tt
IsFresh-without sid x (z ∷ zs) f = ground (arith, IsFresh-without sid x zs f.1)

IsDistinct-without : (x : Stream) (zs : List Stream) → IsDistinct zs → IsDistinct (without x zs)
IsDistinct-without x [] d = tt
IsDistinct-without x (z ∷ zs) d =
    ground (arith, IsDistinct-without x zs d.1, IsFresh-without z.sid x zs d.0)

cached_cases :
    (here replaced : Bool) (x y : Stream) (old : Option Stream)
    → (if here then (if replaced then some x else old) else old) ≡ some y
    → ((here ≡ true) × (x ≡ y)) ⊎ (old ≡ some y)
cached_cases true true x y old e = inl (refl, cc)
cached_cases true false x y old e = inr e
cached_cases false replaced x y old e = inr e

-- A new stream whose identity no running stream has keeps the invariant.
pub handle-IsManager :
    (m : Manager) (x : Stream) → IsManager m → IsFresh x.sid m.loops → IsManager (handle m x)
handle-IsManager m x v f = record {
  distinct = rw (handle_lem m x x.remote).1 (f, v.distinct);
  running = λ peer y e.
      elim (cached_cases (bytes_beq x.remote peer) _ x y (lookup peer m.streams)
        (sym (handle_lem m x peer).0 ∙ e)) [
          | inl (here, p) ↦ (
            rw (← p) ((bytes_beq_iff x.remote peer).0 here),
            rw (handle_lem m x peer).1 (inl (sym p)),
          )
          | inr old ↦
              ((v.running peer y old).0, rw (handle_lem m x peer).1 (inr (v.running peer y old).1))
        ];
}

not_same : (y x : Stream) → y.sid ≡ x.sid → is_stream x (some y) ≡ false → ⊥
unfolding is_stream
not_same y x p e = cc ((==_iff y.sid x.sid).1 p)

remote_lem :
    (x y : Stream) (peer : Bytes) (zs : List Stream)
    → IsDistinct zs
    → In x zs
    → In y zs
    → y.remote ≡ peer
    → y.sid ≡ x.sid
    → x.remote ≡ peer
remote_lem x y peer zs d i j r p = ap (λ t. t.remote) (same_of_sid x y zs d i j (sym p)) ∙ r

lookup-remove_if :
    (k j : Bytes) (b : Bool) (m : List (Bytes × Stream))
    → lookup j (if b then remove k m else m)
      ≡ (if bytes_beq k j then (if b then none else lookup j m) else lookup j m)
lookup-remove_if k j true m = lookup-remove k j m
lookup-remove_if k j false m = ground arith

ended_cases :
    (here same : Bool) (old : Option Stream) (y : Stream)
    → (if here then (if same then none else old) else old) ≡ some y
    → (old ≡ some y) × (here ≡ true → same ≡ false)
ended_cases true true old y e = cc
ended_cases true false old y e = (e, λ h. refl)
ended_cases false same old y e = (e, λ h. cc)

-- What `end_loop` leaves cached was cached before, and is another stream than the one that ended.
pub ended_lookup :
    (m : Manager) (x : Stream) (peer : Bytes) (y : Stream)
    → lookup peer (end_loop m x).streams ≡ some y
    → (lookup peer m.streams ≡ some y) × (x.remote ≡ peer → y.sid ≢ x.sid)
unfolding end_loop
ended_lookup m x peer y e = (found, other)
  where
    cases :
        (lookup peer m.streams ≡ some y)
        × (bytes_beq x.remote peer ≡ true → is_stream x (lookup x.remote m.streams) ≡ false)
    cases =
        ended_cases _ _ (lookup peer m.streams) y
          (sym (lookup-remove_if x.remote peer _ m.streams) ∙ e)

    found : lookup peer m.streams ≡ some y
    found = cases.0

    other : x.remote ≡ peer → y.sid ≢ x.sid
    other p q =
        let here : lookup x.remote m.streams ≡ some y = ap (λ t. lookup t m.streams) p ∙ found in
        let same : is_stream x (some y) ≡ false =
          ap (is_stream x) (sym here) ∙ cases.1 ((bytes_beq_iff x.remote peer).1 p) in
        not_same y x q same

-- The end of a read loop keeps the invariant, and takes no newer stream out of the cache.
pub end_loop-IsManager :
    (m : Manager) (x : Stream) → IsManager m → In x m.loops → IsManager (end_loop m x)
end_loop-IsManager m x v i = record {
  distinct = unfold end_loop in IsDistinct-without x m.loops v.distinct;
  running = λ peer y e.
      let (old, other) = ended_lookup m x peer y e in
      let (mine, runs) = v.running peer y old in
      (
        mine,
        unfold end_loop in
            In-without x y m.loops
              (λ p. other (remote_lem x y peer m.loops v.distinct i runs mine p) p) runs,
      );
}

-- The end of its own loop takes a cached stream out of the cache.
pub end_loop_self :
    (m : Manager) (x : Stream)
    → lookup x.remote m.streams ≡ some x
    → lookup x.remote (end_loop m x).streams ≡ none
unfolding end_loop is_stream
end_loop_self m x e =
    lookup-remove_if x.remote x.remote _ m.streams
    ∙ rw (e, (bytes_beq_iff x.remote x.remote).1 refl, (==_iff x.sid x.sid).1 refl)
