-- ===== src/Examples/Cache.antt =====
-- The cache of streams: internal/common/xrmmgr.go.
use chat_libp2p.Common.{◌≡◌, ◌≢◌, refl, true, false, some, [], ◌∷◌, Bytes, lookup, insert, bytes_eq}
use chat_libp2p.Streams.{inbound, Stream, Manager, handle, replaces, new_manager}
use chat_libp2p.Streams.Choice.{
  simultaneous_open, cached_opener, smaller, both, opened_here, opened_there,
}
use chat_libp2p.Streams.Invariant.{In}
use chat_libp2p.Streams.Steps.{opened, here, next, Reach-running}

abbrev alice : Bytes
alice = 1 ∷ []

abbrev bob : Bytes
bob = 2 ∷ []

abbrev first : Stream
first = record { sid = 1; remote = bob; local_peer = alice; direction = inbound; direct = true }

abbrev one : Manager
one = handle new_manager first

alice-ne-bob : alice ≢ bob
alice-ne-bob e = absurd (cc e)

one_streams : lookup bob one.streams ≡ some first
unfolding handle replaces lookup insert
one_streams = refl

simultaneous_open_example :
    (cached_opener (
        lookup bob
          (both true new_manager (opened_here 1 alice bob) (opened_there 2 alice bob)).streams)
      ≡ some (smaller alice bob))
    × (cached_opener (
          lookup alice
            (both false new_manager (opened_here 3 bob alice) (opened_there 4 bob alice)).streams)
        ≡ some (smaller alice bob))
simultaneous_open_example =
    simultaneous_open true false new_manager new_manager 1 2 3 4 alice bob alice-ne-bob
      (unfold lookup in refl) (unfold lookup in refl)

Reach-running_example : (bob ≡ bob) × In first one.loops
Reach-running_example = Reach-running one bob first (next here (opened first tt)) one_streams
