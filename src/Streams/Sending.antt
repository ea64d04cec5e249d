-- ===== src/Streams/Sending.antt =====
-- What every protocol does to send a frame: GetStream and a write, and after a failed write a second
-- try on a new stream. internal/common/protocol/text/text.go and image/image.go (Send),
-- heartbeat/heartbeat.go (Send), identify/identify.go (handleMeta and QueryEVM).
use chat_libp2p.Common.{
  ◌≡◌, ◌∙◌, ◌⊎◌, refl, sym, ap, subst, ◌∷◌, Bool, true, false, Option, none, some, Bytes, lookup,
  bytes_eq, Bool-cases, inl, inr,
}
use chat_libp2p.Streams.{Stream, Manager, Error, Got, new_stream_error, get_stream}
use chat_libp2p.Streams.Invariant.{IsManager, IsFresh}
use chat_libp2p.Streams.Steps.{Delivers, get_stream-Delivers, get_stream_failed}

-- `no_stream` is an error of GetStream, and `nil_stream` the panic of a write to a nil stream.
pub data Sent : Type 0 where
  sent_on : Stream → Sent
  no_stream write_failed nil_stream : Sent

-- What the network and the other goroutines do during one try.
pub record Try : Type 0 where
  pub ctx_done : Bool
  pub dialled : Option Stream
  -- during the dial, and between it and the last lock of GetStream
  pub meanwhile : Manager → Manager
  pub others : Manager → Manager
  -- whether WriteWithContext succeeds
  pub writes : Stream → Bool

-- `WriteWithContext` on the stream that GetStream returned, and what follows its failure.
unfoldable pub write_on :
    Option Stream → (Stream → Bool) → Manager × Sent → Manager → Manager × Sent
write_on none writes failed m = (m, nil_stream)
write_on (some x) writes failed m = elim (writes x) [ true ↦ (m, sent_on x) | false ↦ failed ]

-- One try: `failed` is what follows a failed write.
unfoldable pub one_try : Bool → Try → (Manager → Manager × Sent) → Manager → Bytes → Manager × Sent
unfolding get_stream write_on
one_try no_cache t failed m peer =
    let (u, got) = get_stream no_cache t.ctx_done t.dialled t.meanwhile t.others m peer in
    elim got.err [ some e ↦ (u, no_stream) | none ↦ write_on got.xrm t.writes (failed u) u ]

unfoldable pub give_up : Manager → Manager × Sent
give_up m = (m, write_failed)

-- "get stream with no cache and try again"; `between` is what other goroutines do between the tries.
unfoldable pub try_again : (Manager → Manager) → Try → Bytes → Manager → Manager × Sent
unfolding one_try give_up
try_again between second peer u = one_try true second give_up (between u) peer

unfoldable pub send_frame : Try → (Manager → Manager) → Try → Manager → Bytes → Manager × Sent
unfolding one_try try_again
send_frame first between second m peer = one_try false first (try_again between second peer) m peer

-- QueryEVM looks at another variable after its first GetStream, so that it goes on without a stream.
unfoldable pub query_try : Try → (Manager → Manager × Sent) → Manager → Bytes → Manager × Sent
unfolding get_stream write_on
query_try t failed m peer =
    let (u, got) = get_stream false t.ctx_done t.dialled t.meanwhile t.others m peer in
    write_on got.xrm t.writes (failed u) u

unfoldable pub query_frame : Try → (Manager → Manager) → Try → Manager → Bytes → Manager × Sent
unfolding query_try try_again
query_frame first between second m peer = query_try first (try_again between second peer) m peer

-- A stream that carried the frame is one to the peer, and took all of it, on one of the two tries.
abbrev pub Carried : Bytes → Try → Try → Sent → Type 0
Carried peer first second (sent_on x) =
    (x.remote ≡ peer) × ((first.writes x ≡ true) ⊎ (second.writes x ≡ true))
Carried peer first second no_stream = Unit {0}
Carried peer first second write_failed = Unit {0}
Carried peer first second nil_stream = Unit {0}

-- A state that a try may begin in: the invariant holds, and a stream that the try dials is new.
abbrev pub Ready : Try → Manager → Type 0
Ready t m =
    IsManager m
    × IsManager (t.meanwhile m)
    × ((ns : Stream) → t.dialled ≡ some ns → IsFresh ns.sid (t.meanwhile m).loops)

abbrev pub Keeps : (Manager → Manager) → Type 0
Keeps f = (u : Manager) → IsManager u → IsManager (f u)

-- What a result promises: the invariant, and a stream to the peer that took the frame.
abbrev pub Result : Bytes → Try → Try → Manager × Sent → Type 0
Result peer first second (u, s) = IsManager u × Carried peer first second s

write_on-Result :
    (peer : Bytes) (first second t : Try) (got : Option Stream) (m : Manager)
    (failed : Manager × Sent)
    → IsManager m
    → ((x : Stream) → got ≡ some x → x.remote ≡ peer)
    → ((x : Stream) → t.writes x ≡ true → (first.writes x ≡ true) ⊎ (second.writes x ≡ true))
    → Result peer first second failed
    → Result peer first second (write_on got t.writes failed m)
unfolding write_on
write_on-Result peer first second t none m failed v to which h = (v, tt)
write_on-Result peer first second t (some x) m failed v to which h =
    elim (Bool-cases (t.writes x)) [
      | inl took ↦ rw (took, write_on) (v, (to x refl, which x took))
      | inr failed_write ↦ rw (failed_write, write_on) h
    ]

tried :
    (peer : Bytes) (first second t : Try) (no_cache : Bool) (failed : Manager → Manager × Sent)
    (m : Manager)
    → Delivers peer (get_stream no_cache t.ctx_done t.dialled t.meanwhile t.others m peer)
    → ((x : Stream) → t.writes x ≡ true → (first.writes x ≡ true) ⊎ (second.writes x ≡ true))
    → Result peer first second
        (failed (get_stream no_cache t.ctx_done t.dialled t.meanwhile t.others m peer).0)
    → (e : Option Error)
    → (get_stream no_cache t.ctx_done t.dialled t.meanwhile t.others m peer).1.err ≡ e
    → Result peer first second (one_try no_cache t failed m peer)
unfolding one_try
tried peer first second t no_cache failed m d which h none e =
    let (u, got) = get_stream no_cache t.ctx_done t.dialled t.meanwhile t.others m peer in
    rw (e, one_try)
      (write_on-Result peer first second t got.xrm u (failed u) d.0 (λ x q. (d.1 x q e).0) which h)
tried peer first second t no_cache failed m d which h (some b) e = rw (e, one_try) (d.0, tt)

one_try-Result :
    (peer : Bytes) (first second t : Try) (no_cache : Bool) (failed : Manager → Manager × Sent)
    (m : Manager)
    → Ready t m
    → Keeps t.others
    → ((x : Stream) → t.writes x ≡ true → (first.writes x ≡ true) ⊎ (second.writes x ≡ true))
    → (IsManager (get_stream no_cache t.ctx_done t.dialled t.meanwhile t.others m peer).0
        → Result peer first second
            (failed (get_stream no_cache t.ctx_done t.dialled t.meanwhile t.others m peer).0))
    → Result peer first second (one_try no_cache t failed m peer)
unfolding one_try
one_try-Result peer first second t no_cache failed m (v, w, fresh) keeps which h =
    let d =
      get_stream-Delivers no_cache t.ctx_done t.dialled t.meanwhile t.others m peer v w fresh
        keeps in
    tried peer first second t no_cache failed m d which (h d.0)
      (get_stream no_cache t.ctx_done t.dialled t.meanwhile t.others m peer).1.err refl

give_up-Result :
    (peer : Bytes) (first second : Try) (m : Manager)
    → IsManager m
    → Result peer first second (give_up m)
unfolding give_up
give_up-Result peer first second m v = (v, tt)

-- The manager when the first try has got its stream.
abbrev pub after_first : Try → Manager → Bytes → Manager
after_first t m peer = (get_stream false t.ctx_done t.dialled t.meanwhile t.others m peer).0

-- Send keeps the stream manager's invariant, and a stream on which it reports success is one to the
-- peer that took the whole frame, on the first or on the second try, whatever the other goroutines do
-- meanwhile, if what they do keeps the invariant and a dialled stream has an identity of its own.
pub send_frame-Result :
    (first second : Try) (between : Manager → Manager) (m : Manager) (peer : Bytes)
    → Ready first m
    → Keeps first.others
    → Keeps between
    → Keeps second.meanwhile
    → Keeps second.others
    → ((ns : Stream)
        → second.dialled ≡ some ns
        → IsFresh ns.sid (second.meanwhile (between (after_first first m peer))).loops)
    → Result peer first second (send_frame first between second m peer)
unfolding send_frame try_again
send_frame-Result first second between m peer ready k1 kb km k2 fresh =
    one_try-Result peer first second first false (try_again between second peer) m ready k1
      (λ x e. inl e)
      (λ v.
        one_try-Result peer first second second true give_up (between (after_first first m peer))
          (kb _ v, km _ (kb _ v), fresh) k2 (λ x e. inr e) (give_up-Result peer first second _))

unreached :
    (t : Try) (m : Manager) (peer : Bytes)
    → lookup peer m.streams ≡ none
    → t.dialled ≡ none
    → get_stream false t.ctx_done t.dialled t.meanwhile t.others m peer ≡ (
      record (t.meanwhile m) { forgotten = peer ∷ (t.meanwhile m).forgotten },
      record { xrm = none; err = some new_stream_error },
    )
unreached t m peer e f =
    subst
      (λ x. get_stream false t.ctx_done x t.meanwhile t.others m peer ≡ (
        record (t.meanwhile m) { forgotten = peer ∷ (t.meanwhile m).forgotten },
        record { xrm = none; err = some new_stream_error },
      ))
      (sym f)
      (get_stream_failed t.ctx_done t.meanwhile t.others m peer false (inr e)
        ∙ ap
            (λ (x : Option Stream). (
              record (t.meanwhile m) { forgotten = peer ∷ (t.meanwhile m).forgotten },
              record { xrm = x; err = some new_stream_error },
            ))
            e)

-- Where nothing is cached for the peer and it cannot be dialled, Send reports an error, and QueryEVM,
-- which does not look at that error, writes to a nil stream.
pub query_frame_unreachable :
    (first second : Try) (between : Manager → Manager) (m : Manager) (peer : Bytes)
    → lookup peer m.streams ≡ none
    → first.dialled ≡ none
    → ((send_frame first between second m peer).1 ≡ no_stream)
      × ((query_frame first between second m peer).1 ≡ nil_stream)
unfolding send_frame query_frame query_try one_try write_on
query_frame_unreachable first second between m peer e f =
    let failed = unreached first m peer e f in
    let checked : Manager × Got → Manager × Sent = λ r. elim r.1.err [
      | some b ↦ (r.0, no_stream)
      | none ↦ write_on r.1.xrm first.writes (try_again between second peer r.0) r.0
    ] in
    let unchecked : Manager × Got → Manager × Sent =
      λ r. write_on r.1.xrm first.writes (try_again between second peer r.0) r.0 in
    (ap (λ r. (checked r).1) failed, ap (λ r. (unchecked r).1) failed)
