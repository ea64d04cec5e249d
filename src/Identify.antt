-- ===== src/Identify.antt =====
-- internal/common/protocol/identify/identify.go: asking a peer for its Ethereum address. The table of
-- waiting queries and their channels are those of the other protocols, over strings; `none` is the
-- panic of a payload that is too short.
pub mod Answers
use chat_libp2p.Common.{
  ℕ, ◌+◌, ◌%◌, ◌^◌, Bool, true, false, Option, none, some, List, [], ◌∷◌, ◌++◌, Bytes, put_be,
  slice, uint_be, ◌>>=◌, if◌then◌else◌,
}
use chat_libp2p.Frame.{flag_meta, flag_data, new_frame, encode}
use chat_libp2p.Exchange.{
  State, new_state, deliver, register, unregister, Reply, answered, err, Error, send_error,
  ctx_error,
}
use chat_libp2p.Streams.Sending.{Sent, sent_on, no_stream, write_failed, nil_stream}
use chat_libp2p.Common.{lookup, nat_eq}

-- The address that it answers with, the waiting queries, and the next query's 16-bit identifier.
pub record Identify : Type 0 where
  pub evm_addr : Bytes
  pub queries : State Bytes
  pub result_id : ℕ

abbrev pub new_identify : Bytes → Identify
new_identify evm = record { evm_addr = evm; queries = new_state; result_id = 0 }

-- The bytes that handleMeta answers a query's payload with.
unfoldable pub answer_bytes : Identify → Bytes → Bytes
answer_bytes i payload = encode (new_frame flag_data (payload ++ i.evm_addr))

-- handleData
unfoldable pub handle_answer : Bytes → State Bytes → Option (State Bytes)
handle_answer payload s = do id ← uint_be 2 payload; evm ← slice 2 payload; some (deliver s id evm)

unfoldable pub query_bytes : ℕ → Bytes
query_bytes id = encode (new_frame flag_meta (put_be 2 id))

-- The lock at the beginning of QueryEVM: the query's identifier and channel, and the new state.
unfoldable pub begin_query : Identify → Identify × ℕ × ℕ
begin_query i =
    let (s, ch) = register i.queries i.result_id in
    (record i { queries = s; result_id = (i.result_id + 1) % 2 ^ 16 }, i.result_id, ch)

-- Its deferred function.
unfoldable pub end_query : Identify → ℕ → Identify
end_query i id = record i { queries = unregister i.queries id }

-- QueryEVM: `sent` is what the two tries came to, and `meanwhile` what happens until the select is
-- taken. With no answer the context ends; `late` is Go's choice when both are ready. `none` is a panic.
unfoldable pub wait_answer : State Bytes → ℕ → Bool → Reply Bytes
wait_answer s ch late = elim (lookup ch s.channels) [
  | none ↦ err ctx_error
  | some evm ↦ if late then err ctx_error else answered evm
]

unfoldable pub query_evm :
    (sent : Sent) (late : Bool) (meanwhile : Identify → Option Identify)
    → Identify
    → Option (Identify × Reply Bytes)
unfolding begin_query end_query wait_answer
query_evm sent late meanwhile i =
    let (i', id, ch) = begin_query i in
    elim sent [
      | nil_stream ↦ none
      | no_stream ↦ some (end_query i' id, err send_error)
      | write_failed ↦ some (end_query i' id, err send_error)
      | sent_on x ↦ do t ← meanwhile i'; some (end_query t id, wait_answer t.queries ch late)
    ]
