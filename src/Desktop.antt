-- ===== src/Desktop.antt =====
-- cmd/client/pc/main.go: the loop over the commands that arrive on standard input, one after the other.
-- What each command asks of the SDK (cmd/client/mobile) is a `Call`, and what the SDK answers is an
-- argument; JSON and peer.Decode are parameters.
pub mod Sessions
use chat_libp2p.Common.{
  ℕ, ◌≡◌, Bool, true, false, not, ◌&&◌, ◌||◌, Option, none, some, List, [], ◌∷◌, ◌++◌, Bytes,
  bytes_beq, if◌then◌else◌,
}

-- A line of input, decoded: with its payload, or not a command at all.
pub data Command : Type 0 where
  init : (config : Bytes) → Command
  peers close other : Command
  pin : (peer : Bytes) (on : Bool) → Command
  remark : (peer text : Bytes) → Command
  flush open_peer : (peer : Bytes) → Command
  fetch : (peer : Bytes) (offset limit : ℕ) → Command
  delete : (peer : Bytes) (ids : List Bytes) → Command
  send : (peer mtype payload : Bytes) (ttl : ℕ) → Command

pub data Input : Type 0 where
  illegal : Input
  command : Command → Input

-- A session of the SDK, by the decoded identifier of its peer.
pub record Session : Type 0 where
  pub peer_id : Bytes

pub data Call : Type 0 where
  call_init : Bytes → Call
  call_info call_peers call_close : Call
  call_pin : Bytes → Bool → Call
  call_remark : Bytes → Bytes → Call
  call_flush call_open : Bytes → Call
  session_fetch : Session → ℕ → ℕ → Call
  session_delete : Session → List Bytes → Call
  session_send : Session → Bytes → Bytes → ℕ → Call

pub data Code : Type 0 where
  success failure illegal_request : Code

-- The variables of `main`: `target` is tPeerID.
pub record Desktop : Type 0 where
  pub running : Bool
  pub target : Bytes
  pub session : Option Session

abbrev pub new_desktop : Desktop
new_desktop = record { running = false; target = []; session = none }

-- What one command leaves: the variables, the calls in their order, and the code of the response.
abbrev pub Step : Type 0
Step = Desktop × List Call × Code

abbrev pub is_init : Command → Bool
is_init (init config) = true
is_init _ = false

-- `answers` is whether a call succeeds, and `decode_peer` peer.Decode.
module _ (decode_peer : Bytes → Option Bytes) (answers : Call → Bool) where
  -- A call whose error is a failure.
  unfoldable pub attempt : Desktop → Call → Step
  attempt s c = (s, c ∷ [], if answers c then success else failure)

  unfoldable pub run_init : Desktop → Bytes → Step
  run_init s config =
      if answers (call_init config)
      then if answers call_info
        then (record s { running = true }, call_init config ∷ call_info ∷ [], success)
        else (s, call_init config ∷ call_info ∷ [], failure)
      else (s, call_init config ∷ [], failure)

  -- OpenSession fails on an identifier that peer.Decode refuses, and returns no session then.
  unfoldable pub run_open : Desktop → Bytes → Option Bytes → Step
  run_open s peer none = (record s { session = none }, call_open peer ∷ [], failure)
  run_open s peer (some id) = (
    record s { target = id; session = some (record { peer_id = id }) },
    call_open peer ∷ [],
    success,
  )

  -- The test of the commands on a session, and their call.
  unfoldable pub on_session : Desktop → Option Bytes → Option Session → (Session → Call) → Step
  unfolding attempt
  on_session s none o c = (s, [], illegal_request)
  on_session s (some id) none c = (s, [], failure)
  on_session s (some id) (some x) c =
      if bytes_beq id s.target then attempt s (c x) else (s, [], failure)

  unfoldable pub run_command : Desktop → Command → Step
  unfolding attempt run_init run_open on_session
  run_command s (init config) = run_init s config
  run_command s peers = (s, call_peers ∷ [], success)
  run_command s (pin peer on) = attempt s (call_pin peer on)
  run_command s (remark peer text) = attempt s (call_remark peer text)
  run_command s (flush peer) = attempt s (call_flush peer)
  run_command s (open_peer peer) = run_open s peer (decode_peer peer)
  -- Fetch returns no error.
  run_command s (fetch peer offset limit) =
      let (t, calls, code) =
        on_session s (decode_peer peer) s.session (λ x. session_fetch x offset limit) in
      (t, calls, elim calls [ [] ↦ code | c ∷ cs ↦ success ])
  run_command s (delete peer ids) =
      on_session s (decode_peer peer) s.session (λ x. session_delete x ids)
  run_command s (send peer mtype payload ttl) =
      on_session s (decode_peer peer) s.session (λ x. session_send x mtype payload ttl)
  run_command s close =
      (record { running = false; target = []; session = none }, call_close ∷ [], success)
  run_command s other = (s, [], success)

  -- One round of the loop: nothing but init before the SDK runs.
  unfoldable pub run_input : Desktop → Input → Step
  unfolding run_command
  run_input s illegal = (s, [], illegal_request)
  run_input s (command c) =
      if not (is_init c) && not s.running then (s, [], illegal_request) else run_command s c

  unfoldable pub run_all : Desktop → List Input → Desktop × List Call
  unfolding run_input
  run_all s [] = (s, [])
  run_all s (x ∷ xs) =
      let (t, calls, code) = run_input s x in let (u, others) = run_all t xs in (u, calls ++ others)
