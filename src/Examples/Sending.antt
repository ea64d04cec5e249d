-- ===== src/Examples/Sending.antt =====
-- Writing to a stream, sending a frame, and asking for an address: internal/common/xrmmgr.go and
-- internal/common/protocol.
use chat_libp2p.Common.{
  ◌≡◌, refl, sym, true, false, some, none, [], ◌∷◌, ◌++◌, Bytes, length, lookup, nat_eq,
}
use mathlib.Core.Option.{some-injective}
use chat_libp2p.Streams.{inbound, Stream, new_manager}
use chat_libp2p.Streams.Invariant.{IsManager}
use chat_libp2p.Streams.Write.{
  Conn, ConnLaws, Writes, write_with_context, write_with_context-Writes,
}
use chat_libp2p.Streams.Sending.{
  Try, Result, send_frame, query_frame, no_stream, nil_stream, send_frame-Result,
  query_frame_unreachable,
}

abbrev bob : Bytes
bob = 2 ∷ []

-- A stream that keeps what it is given, in whole writes.
abbrev sink : Conn
sink = record { State = Bytes; write = λ s bs. (s ++ bs, some (length bs)); close = λ s. s }

abbrev sink_laws : ConnLaws sink
sink_laws = record {
  written = λ s. s;
  write_all = λ s bs n e. (sym (some-injective (length bs) n e), refl);
}

write_with_context-Writes_example :
    Writes sink sink_laws (7 ∷ 8 ∷ []) (5 ∷ []) 0 (write_with_context sink (7 ∷ 8 ∷ []) (5 ∷ []))
write_with_context-Writes_example = write_with_context-Writes sink sink_laws (7 ∷ 8 ∷ []) (5 ∷ [])

abbrev dialled_stream : Stream
dialled_stream = record {
  sid = 1;
  remote = bob;
  local_peer = 1 ∷ [];
  direction = inbound;
  direct = true;
}

-- A try that dials and whose write fails, and one that finds nobody.
abbrev failing : Try
failing = record {
  ctx_done = false;
  dialled = some dialled_stream;
  meanwhile = λ u. u;
  others = λ m. m;
  writes = λ x. false;
}

abbrev offline : Try
offline = record {
  ctx_done = false;
  dialled = none;
  meanwhile = λ m. m;
  others = λ m. m;
  writes = λ x. true;
}

new_manager-IsManager : IsManager new_manager
new_manager-IsManager = record { distinct = tt; running = λ peer x e. unfold lookup in cc }

send_frame-Result_example :
    Result bob failing offline (send_frame failing (λ m. m) offline new_manager bob)
send_frame-Result_example =
    send_frame-Result failing offline (λ m. m) new_manager bob
      (new_manager-IsManager, new_manager-IsManager, λ ns e. tt) (λ u v. v) (λ u v. v) (λ u v. v)
      (λ u v. v) (λ ns e. absurd (cc e))

query_frame_unreachable_example :
    ((send_frame offline (λ m. m) offline new_manager bob).1 ≡ no_stream)
    × ((query_frame offline (λ m. m) offline new_manager bob).1 ≡ nil_stream)
query_frame_unreachable_example =
    query_frame_unreachable offline offline (λ m. m) new_manager bob (unfold lookup in refl) refl
