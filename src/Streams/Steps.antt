-- ===== src/Streams/Steps.antt =====
-- The manager over time, and what GetStream returns.
use chat_libp2p.Common.{
  ◌≡◌, ◌⊎◌, ◌∙◌, inl, inr, refl, ap, arith, Bool, true, false, Option, none, some, ◌∷◌,
  if◌then◌else◌, Bytes, lookup, bytes_eq, Option-cases,
}
use chat_libp2p.Streams.{
  Stream, Manager, Error, Got, ctx_error, new_stream_error, handle, replaces, end_loop, get_stream,
  new_manager,
}
use chat_libp2p.Streams.Choice.{handle_self}
use chat_libp2p.Streams.Invariant.{
  IsManager, In, IsFresh, handle-IsManager, end_loop-IsManager, end_loop_self,
}

-- What the goroutines of a manager do under its lock: a stream arrives or is dialled, a loop ends.
pub data Step (m : Manager) : Manager → Type 0 where
  opened : (x : Stream) → IsFresh x.sid m.loops → Step m (handle m x)
  ended : (x : Stream) → In x m.loops → Step m (end_loop m x)

pub data Reach (m : Manager) : Manager → Type 0 where
  here : Reach m m
  next : {u w : Manager} → Reach m u → Step u w → Reach m w

Step-IsManager : {m u : Manager} → Step m u → IsManager m → IsManager u
Step-IsManager {m} (opened x f) v = handle-IsManager m x v f
Step-IsManager {m} (ended x i) v = end_loop-IsManager m x v i

Reach-IsManager : {m u : Manager} → IsManager m → Reach m u → IsManager u
Reach-IsManager v here = v
Reach-IsManager v (next r s) = Step-IsManager s (Reach-IsManager v r)

new_manager-IsManager : IsManager new_manager
new_manager-IsManager = record { distinct = tt; running = λ peer x e. unfold lookup in cc }

-- Whatever streams arrive and whatever read loops end, in any order, a cached stream is one to the
-- peer that it is cached for, and its read loop is running, if no two streams have one identity.
pub Reach-running :
    (m : Manager) (peer : Bytes) (x : Stream)
    → Reach new_manager m
    → lookup peer m.streams ≡ some x
    → (x.remote ≡ peer) × In x m.loops
Reach-running m peer x r e = (Reach-IsManager new_manager-IsManager r).running peer x e

module _ (no_cache ctx_done : Bool) (dialled : Option Stream) (meanwhile others : Manager → Manager)
    (m : Manager) (peer : Bytes) where
  get_stream_cached :
      (x : Stream)
      → lookup peer m.streams ≡ some x
      → no_cache ≡ false
      → get_stream no_cache ctx_done dialled meanwhile others m peer
        ≡ (m, record { xrm = some x; err = if ctx_done then some ctx_error else none })
  unfolding get_stream
  get_stream_cached x e n = rw (e, n)

-- A dial when nothing usable is cached.
module _ (ctx_done : Bool) (meanwhile others : Manager → Manager) (m : Manager) (peer : Bytes) where
  abbrev pub Dials : Bool → Type 0
  Dials no_cache = (no_cache ≡ true) ⊎ (lookup peer m.streams ≡ none)

  pub get_stream_failed :
      (no_cache : Bool)
      → Dials no_cache
      → get_stream no_cache ctx_done none meanwhile others m peer ≡ (
        record (meanwhile m) { forgotten = peer ∷ (meanwhile m).forgotten },
        record { xrm = lookup peer m.streams; err = some new_stream_error },
      )
  unfolding get_stream
  get_stream_failed no_cache (inl e) = elim (Option-cases (lookup peer m.streams)) [
    | inl f ↦ rw (f, get_stream) refl
    | inr (x, f) ↦ rw (f, e, get_stream) refl
  ]
  get_stream_failed no_cache (inr e) = rw (e, get_stream) refl

  get_stream_dialled :
      (no_cache : Bool) (ns : Stream)
      → Dials no_cache
      → get_stream no_cache ctx_done (some ns) meanwhile others m peer ≡ (
        others (handle (meanwhile m) ns),
        record { xrm = lookup peer (others (handle (meanwhile m) ns)).streams; err = none },
      )
  unfolding get_stream
  get_stream_dialled no_cache ns d = ground arith

-- What a caller may rely on: the manager's invariant, and that a stream which came back without an error
-- is one to the peer that was asked for, with a running read loop.
abbrev pub Delivers : Bytes → Manager × Got → Type 0
Delivers peer r =
    IsManager r.0
    × ((x : Stream) → r.1.xrm ≡ some x → r.1.err ≡ none → (x.remote ≡ peer) × In x r.0.loops)

Delivers-looked_up :
    (peer : Bytes) (m : Manager) (err : Option Error)
    → IsManager m
    → Delivers peer (m, record { xrm = lookup peer m.streams; err = err })
Delivers-looked_up peer m err v = (v, λ x e n. v.running peer x e)

dial-Delivers :
    (no_cache ctx_done : Bool) (dialled : Option Stream) (meanwhile others : Manager → Manager)
    (m : Manager) (peer : Bytes)
    → Dials ctx_done meanwhile others m peer no_cache
    → IsManager (meanwhile m)
    → ((ns : Stream) → dialled ≡ some ns → IsFresh ns.sid (meanwhile m).loops)
    → ((u : Manager) → IsManager u → IsManager (others u))
    → Delivers peer (get_stream no_cache ctx_done dialled meanwhile others m peer)
dial-Delivers no_cache ctx_done none meanwhile others m peer d v f k =
    rw (get_stream_failed ctx_done meanwhile others m peer no_cache d)
      (record { distinct = v.distinct; running = v.running }, λ x e n. cc n)
dial-Delivers no_cache ctx_done (some ns) meanwhile others m peer d v f k =
    rw (get_stream_dialled ctx_done meanwhile others m peer no_cache ns d)
      (Delivers-looked_up peer _ none (k _ (handle-IsManager (meanwhile m) ns v (f ns refl))))

-- GetStream keeps the invariant, and a stream that it returns without an error, cached or dialled, is one
-- to the peer that was asked for, and its read loop runs, whatever the context, whether the dial succeeds,
-- and whatever the other goroutines do during the dial and after it, if what they do keeps the invariant
-- and a dialled stream has an identity of its own.
pub get_stream-Delivers :
    (no_cache ctx_done : Bool) (dialled : Option Stream) (meanwhile others : Manager → Manager)
    (m : Manager) (peer : Bytes)
    → IsManager m
    → IsManager (meanwhile m)
    → ((ns : Stream) → dialled ≡ some ns → IsFresh ns.sid (meanwhile m).loops)
    → ((u : Manager) → IsManager u → IsManager (others u))
    → Delivers peer (get_stream no_cache ctx_done dialled meanwhile others m peer)
get_stream-Delivers true ctx_done dialled meanwhile others m peer v w f k =
    dial-Delivers true ctx_done dialled meanwhile others m peer (inl refl) w f k
get_stream-Delivers false ctx_done dialled meanwhile others m peer v w f k =
    elim (Option-cases (lookup peer m.streams)) [
      | inl e ↦ dial-Delivers false ctx_done dialled meanwhile others m peer (inr e) w f k
      | inr (x, e) ↦
          rw (get_stream_cached false ctx_done dialled meanwhile others m peer x e refl)
            (v, λ y p n. v.running peer y (e ∙ p))
    ]

-- If the new stream's read loop ends before GetStream looks it up again, and nobody else has a stream for
-- the peer by then, GetStream returns neither a stream nor an error.
pub get_stream_race :
    (no_cache ctx_done : Bool) (meanwhile : Manager → Manager) (m : Manager) (ns : Stream)
    → lookup ns.remote m.streams ≡ none
    → lookup ns.remote (meanwhile m).streams ≡ none
    → (get_stream no_cache ctx_done (some ns) meanwhile (λ u. end_loop u ns) m ns.remote).1
      ≡ record { xrm = none; err = none }
get_stream_race no_cache ctx_done meanwhile m ns e f =
    ap (λ t. t.1)
      (get_stream_dialled ctx_done meanwhile (λ u. end_loop u ns) m ns.remote no_cache ns (inr e))
    ∙ ap (λ (t : Option Stream). record { xrm = t; err = none })
        (end_loop_self (handle (meanwhile m) ns) ns
          (handle_self (meanwhile m) ns none f ∙ unfold replaces in refl))
