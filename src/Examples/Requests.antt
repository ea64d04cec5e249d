-- ===== src/Examples/Requests.antt =====
-- Requests and their responses: internal/common/protocol/text/text.go and image/image.go.
use chat_libp2p.Common.{
  ◌≡◌, refl, arith, Bool, true, false, some, [], ◌∷◌, Bytes, lookup, insert, remove, nat_eq, slice,
  uint_be, put_be, be_value,
}
use chat_libp2p.Payload.{by_type, decode_id, decode_ok}
use chat_libp2p.Text as Txt
use chat_libp2p.Text.RoundTrip.{parse-payload_bytes}
use chat_libp2p.Exchange.{
  text_protocol, State, new_state, Event, meta_frame, begins, answered, err, ctx_error, register,
  unregister, event, events, handle_meta, handle_action, deliver, offer, request,
}
use chat_libp2p.Exchange.Waiting.{IsState, request-answer}
use chat_libp2p.Exchange.Collisions.{request_first_answer, request_overtaken}

abbrev mallory : Bytes
mallory = 9 ∷ []

abbrev answer : Txt.Action
answer = Txt.resp_sync_text 5 true

abbrev start : State Txt.Action
start = new_state

start-IsState : IsState text_protocol start
start-IsState = record {
  mapped = λ txid ch h. unfold lookup in cc;
  filled = λ ch a h. unfold lookup in cc;
}

abbrev arrival : Event text_protocol
arrival = meta_frame mallory (Txt.payload_bytes answer)

abbrev answered_state : State Txt.Action
answered_state = record {
  result = (5, 0) ∷ [];
  channels = (0, answer) ∷ [];
  next_channel = 1;
  receiver = [];
}

arrived : events text_protocol (arrival ∷ []) (register start 5).0 ≡ some answered_state
unfolding events event handle_meta handle_action deliver offer register lookup insert
    Txt.response_ok Txt.action_id Txt.parse Txt.payload_bytes by_type Txt.decode_resp_sync_text
    decode_id slice uint_be put_be decode_ok be_value
arrived = refl

answer_ok : Txt.response_ok answer ≡ some true
unfolding Txt.response_ok
answer_ok = refl

answer_id : Txt.action_id answer ≡ 5
unfolding Txt.action_id
answer_id = refl

-- The same run, for the theorems that start from one.
request_first_answer_run :
    request text_protocol true false (arrival ∷ []) start 5
    ≡ some (unregister answered_state 5, answered answer)
request_first_answer_run =
    request_first_answer text_protocol start answered_state 5 mallory (Txt.payload_bytes answer)
      answer true [] [] start-IsState tt (parse-payload_bytes answer (omega arith)) answer_ok
      answer_id arrived

request_first_answer_example :
    request text_protocol true false (arrival ∷ []) start 5
    ≡ some (unregister answered_state 5, answered answer)
request_first_answer_example =
    request_first_answer text_protocol start answered_state 5 mallory (Txt.payload_bytes answer)
      answer true [] [] start-IsState tt (parse-payload_bytes answer (omega arith)) answer_ok
      answer_id arrived

request-answer_example :
    (Txt.action_id answer ≡ 5) × ((ok : Bool) × (Txt.response_ok answer ≡ some ok))
request-answer_example =
    request-answer text_protocol true false (arrival ∷ []) start (unregister answered_state 5) 5
      answer start-IsState request_first_answer_run

abbrev twice : State Txt.Action
twice = record { result = (5, 1) ∷ []; channels = []; next_channel = 2; receiver = [] }

began : events text_protocol (begins 5 ∷ []) (register start 5).0 ≡ some twice
unfolding events event register insert remove
began = refl

request_overtaken_example :
    request text_protocol true false (begins 5 ∷ []) start 5
    ≡ some (unregister twice 5, err ctx_error)
request_overtaken_example =
    request_overtaken text_protocol false start twice 5 [] [] start-IsState tt began
