-- ===== src/Streams.antt =====
-- internal/common/xrmmgr.go: the cache of one stream for each remote peer. A stream is the libp2p
-- stream with what the code reads from it; `sid` is its identity, for `==` on pointers. A step
-- between two locks is one function, so that other goroutines may run in between.
pub mod Invariant
pub mod Choice
pub mod Steps
pub mod ReadLoop
pub mod Write
pub mod Sending
use chat_libp2p.Common.{
  ℕ, Bool, true, false, Option, none, some, List, [], ◌∷◌, ◌==◌, if◌then◌else◌, Bytes, lookup,
  insert, remove, bytes_eq, bytes_lt,
}

pub data Direction : Type 0 where
  unknown inbound outbound : Direction

-- `direct` is IsDirect(): the remote address has no relay in it.
pub record Stream : Type 0 where
  pub sid : ℕ
  pub remote : Bytes
  pub local_peer : Bytes
  pub direction : Direction
  pub direct : Bool

-- The manager's map, and beside it the streams whose read loop runs and those that were closed, and
-- the peers that were dropped from the peer store.
pub record Manager : Type 0 where
  pub streams : List (Bytes × Stream)
  pub loops : List Stream
  pub closed : List Stream
  pub forgotten : List Bytes

-- The tests of `handle` on an inbound, on an outbound and on any other new stream.
unfoldable pub keeps_inbound : Stream → Direction → Bool
keeps_inbound x inbound = true
keeps_inbound x outbound = bytes_lt x.remote x.local_peer
keeps_inbound x unknown = false

unfoldable pub keeps_outbound : Stream → Direction → Bool
keeps_outbound x outbound = true
keeps_outbound x inbound = bytes_lt x.local_peer x.remote
keeps_outbound x unknown = false

unfoldable pub by_direction : Stream → Direction → Direction → Bool
unfolding keeps_inbound keeps_outbound
by_direction x inbound old = keeps_inbound x old
by_direction x outbound old = keeps_outbound x old
by_direction x unknown old = false

-- Whether the new stream `x` takes the place of what is cached for its peer.
unfoldable pub replaces : Option Stream → Stream → Bool
unfolding by_direction
replaces none x = true
replaces (some old) x = if x.direct then true else by_direction x x.direction old.direction

-- The new stream's read loop starts also if the stream is not cached.
unfoldable pub handle : Manager → Stream → Manager
unfolding replaces
handle m x = record m {
  streams =
      if replaces (lookup x.remote m.streams) x then insert x.remote x m.streams else m.streams;
  loops = x ∷ m.loops;
}

unfoldable pub is_stream : Stream → Option Stream → Bool
is_stream x none = false
is_stream x (some y) = y.sid == x.sid

abbrev pub without : Stream → List Stream → List Stream
without x [] = []
without x (y ∷ ys) = let rest = without x ys in if y.sid == x.sid then rest else y ∷ rest

-- The deferred function of `readLoop`.
unfoldable pub end_loop : Manager → Stream → Manager
unfolding is_stream
end_loop m x = record m {
  streams =
      if is_stream x (lookup x.remote m.streams) then remove x.remote m.streams else m.streams;
  loops = without x m.loops;
  closed = x ∷ m.closed;
}

pub data Error : Type 0 where
  ctx_error new_stream_error write_error : Error

-- Go's (xrm, err) pair: each of the two may be nil.
pub record Got : Type 0 where
  pub xrm : Option Stream
  pub err : Option Error

-- `ctx_done` is whether the context has ended, `dialled` is what host.NewStream returns, `meanwhile` is
-- what other goroutines do during the dial, and `others` what they do after handle and before the last
-- lock. After a failed dial the stream that was looked up first stands beside the error.
unfoldable pub get_stream :
    (no_cache ctx_done : Bool)
    → (dialled : Option Stream) → (meanwhile others : Manager → Manager) → Manager
    → Bytes
    → Manager × Got
unfolding handle
get_stream no_cache ctx_done dialled meanwhile others m peer =
    if (elim (lookup peer m.streams) [ none ↦ false | some x ↦ if no_cache then false else true ])
    then (
      m,
      record { xrm = lookup peer m.streams; err = if ctx_done then some ctx_error else none },
    )
    else elim dialled [
      | none ↦ (
        (let u = meanwhile m in record u { forgotten = peer ∷ u.forgotten }),
        record { xrm = lookup peer m.streams; err = some new_stream_error },
      )
      | some ns ↦
          (let m' = others (handle (meanwhile m) ns) in
            (m', record { xrm = lookup peer m'.streams; err = none }))
    ]

-- Connected(n, c): a direct outbound connection to a peer with a cached stream dials a new stream.
unfoldable pub connected :
    (direct : Bool) (direction : Direction) (dialled : Option Stream)
    → (meanwhile others : Manager → Manager) → Manager
    → Bytes
    → Manager
unfolding get_stream
connected direct outbound dialled meanwhile others m peer = elim (lookup peer m.streams) [
  | none ↦ m
  | some x ↦ if direct then (get_stream true false dialled meanwhile others m peer).0 else m
]
connected direct inbound dialled meanwhile others m peer = m
connected direct unknown dialled meanwhile others m peer = m

abbrev pub new_manager : Manager
new_manager = record { streams = []; loops = []; closed = []; forgotten = [] }
