-- ===== src/Streams/Choice.antt =====
-- Which of two streams to one peer stays cached.
use chat_libp2p.Common.{
  ℕ, ◌≡◌, ◌≢◌, ◌∙◌, sym, ap, refl, arith, Bool, true, false, Option, none, some, List, ◌∷◌,
  if◌then◌else◌, Bytes, lookup, insert, lookup-insert, bytes_eq, bytes_beq, bytes_beq_iff, bytes_lt,
  bytes_lt_asym, bytes_lt_total,
}
use chat_libp2p.Streams.{
  Stream, Manager, Direction, inbound, outbound, unknown, replaces, by_direction, handle,
}

lookup-insert_if :
    (k j : Bytes) (v : Stream) (b : Bool) (m : List (Bytes × Stream))
    → lookup j (if b then insert k v m else m)
      ≡ (if bytes_beq k j then (if b then some v else lookup j m) else lookup j m)
lookup-insert_if k j v true m = lookup-insert k j v m
lookup-insert_if k j v false m = ground arith

-- `handle` caches the new stream under its remote peer if `replaces` says so, leaves what is cached
-- for every other peer, starts the new stream's read loop in any case, and closes nothing.
pub handle_lem :
    (m : Manager) (x : Stream) (peer : Bytes)
    → (lookup peer (handle m x).streams ≡ (
        if bytes_beq x.remote peer
        then (if replaces (lookup x.remote m.streams) x then some x else lookup peer m.streams)
        else lookup peer m.streams))
      × ((handle m x).loops ≡ x ∷ m.loops)
      × ((handle m x).closed ≡ m.closed)
unfolding handle
handle_lem m x peer = (lookup-insert_if x.remote peer x _ m.streams, refl, refl)

-- What is cached for the new stream's own peer.
pub handle_self :
    (m : Manager) (x : Stream) (old : Option Stream)
    → lookup x.remote m.streams ≡ old
    → lookup x.remote (handle m x).streams ≡ (if replaces old x then some x else old)
handle_self m x old e =
    (handle_lem m x x.remote).0 ∙ rw ((bytes_beq_iff x.remote x.remote).1 refl, e)

-- A relayed stream between `here` and `there`, opened by `here` or by `there`.
abbrev pub opened_here : ℕ → Bytes → Bytes → Stream
opened_here sid here there = record {
  sid = sid;
  remote = there;
  local_peer = here;
  direction = outbound;
  direct = false;
}

abbrev pub opened_there : ℕ → Bytes → Bytes → Stream
opened_there sid here there = record {
  sid = sid;
  remote = there;
  local_peer = here;
  direction = inbound;
  direct = false;
}

-- Both streams arrive, in one order or in the other.
abbrev pub both : Bool → Manager → Stream → Stream → Manager
both true m x y = handle (handle m x) y
both false m x y = handle (handle m y) x

-- The peer that opened a stream.
abbrev pub opener : Stream → Direction → Option Bytes
opener x outbound = some x.local_peer
opener x inbound = some x.remote
opener x unknown = none

abbrev pub cached_opener : Option Stream → Option Bytes
cached_opener none = none
cached_opener (some x) = opener x x.direction

abbrev pub smaller : Bytes → Bytes → Bytes
smaller a b = if bytes_lt a b then a else b

settle :
    (order : Bool) (m : Manager) (i j : ℕ) (here there : Bytes)
    → here ≢ there
    → lookup there m.streams ≡ none
    → cached_opener
        (lookup there (both order m (opened_here i here there) (opened_there j here there)).streams)
      ≡ some (smaller here there)
unfolding replaces
settle true m i j here there ne e =
    rw
      (handle_self (handle m (opened_here i here there)) (opened_there j here there) _
        (handle_self m (opened_here i here there) none e))
      (ground
        (arith, bytes_lt_asym here there, bytes_lt_asym there here, bytes_lt_total here there))
settle false m i j here there ne e =
    rw
      (handle_self (handle m (opened_there j here there)) (opened_here i here there) _
        (handle_self m (opened_there j here there) none e))
      (ground
        (arith, bytes_lt_asym here there, bytes_lt_asym there here, bytes_lt_total here there))

smaller_comm : (a b : Bytes) → a ≢ b → smaller a b ≡ smaller b a
smaller_comm a b ne = ground (arith, bytes_lt_asym a b, bytes_lt_asym b a, bytes_lt_total a b)

-- Two peers that open relayed streams to one another at the same time keep the same one, the one that
-- the smaller peer opened, whatever the order in which each of them sees the two streams, if neither
-- had a stream to the other before.
pub simultaneous_open :
    (order_a order_b : Bool) (ma mb : Manager) (i j k l : ℕ) (a b : Bytes)
    → a ≢ b
    → lookup b ma.streams ≡ none
    → lookup a mb.streams ≡ none
    → (cached_opener (lookup b (both order_a ma (opened_here i a b) (opened_there j a b)).streams)
        ≡ some (smaller a b))
      × (cached_opener (lookup a (both order_b mb (opened_here k b a) (opened_there l b a)).streams)
          ≡ some (smaller a b))
simultaneous_open order_a order_b ma mb i j k l a b ne ea eb = (
  settle order_a ma i j a b ne ea,
  settle order_b mb k l b a (λ e. ne (sym e)) eb ∙ ap some (smaller_comm b a (λ e. ne (sym e))),
)

by_direction_same : (x : Stream) (d : Direction) → d ≢ unknown → by_direction x d d ≡ true
unfolding by_direction
by_direction_same x inbound h = refl
by_direction_same x outbound h = refl
by_direction_same x unknown h = absurd (h refl)

-- A new relayed stream takes the place of a cached stream of its own direction also if that one is
-- direct.
pub handle_downgrade :
    (m : Manager) (x old : Stream)
    → lookup x.remote m.streams ≡ some old
    → x.direct ≡ false
    → x.direction ≡ old.direction
    → x.direction ≢ unknown
    → lookup x.remote (handle m x).streams ≡ some x
unfolding replaces
handle_downgrade m x old e relayed same known =
    handle_self m x (some old) e ∙ rw (relayed, ← same, by_direction_same x x.direction known)
