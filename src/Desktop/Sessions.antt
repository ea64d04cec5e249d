-- ===== src/Desktop/Sessions.antt =====
-- Which session a command reaches.
use chat_libp2p.Common.{
  ◌≡◌, ◌∙◌, refl, sym, ap, subst, arith, Bool, true, false, not, ◌&&◌, Option, none, some, List, [],
  ◌∷◌, Bytes, bytes_beq, bytes_beq_iff, Bool-cases, inl, inr, All,
}
use mathlib.Core.Option.{some-injective}
use chat_libp2p.Desktop.{
  Command, init, peers, close, other, pin, remark, flush, open_peer, fetch, delete, send, Input,
  illegal, command, Session, Call, call_init, call_info, session_fetch, session_delete,
  session_send, illegal_request, Desktop, new_desktop, Step, attempt, run_init, run_open,
  on_session, run_command, run_input, is_init,
}

-- A session is open only while the SDK runs, and it is one with the target.
pub record IsDesktop (s : Desktop) : Type 0 where
  pub session_target : (x : Session) → s.session ≡ some x → x.peer_id ≡ s.target
  pub session_runs : (x : Session) → s.session ≡ some x → s.running ≡ true

-- The calls on a session that a command makes are on a session with the peer that it names.
abbrev pub ForPeer : Option Bytes → Call → Type 0
ForPeer id (session_fetch x offset limit) = id ≡ some x.peer_id
ForPeer id (session_delete x ids) = id ≡ some x.peer_id
ForPeer id (session_send x mtype payload ttl) = id ≡ some x.peer_id
ForPeer id _ = Unit {0}

-- The peer that a command names.
abbrev pub named : Command → Option Bytes
named (pin peer on) = some peer
named (remark peer text) = some peer
named (flush peer) = some peer
named (open_peer peer) = some peer
named (fetch peer offset limit) = some peer
named (delete peer ids) = some peer
named (send peer mtype payload ttl) = some peer
named _ = none

module _ (decode_peer : Bytes → Option Bytes) (answers : Call → Bool) where
  init-IsDesktop :
      (s : Desktop) (config : Bytes)
      → IsDesktop s
      → IsDesktop (run_init decode_peer answers s config).0
  unfolding run_init
  init-IsDesktop s config v = ground (arith)

  open-IsDesktop :
      (s : Desktop) (peer : Bytes) (o : Option Bytes)
      → s.running ≡ true
      → IsDesktop s
      → IsDesktop (run_open decode_peer answers s peer o).0
  unfolding run_open
  open-IsDesktop s peer none r v = record { session_target = λ x e. cc; session_runs = λ x e. cc }
  open-IsDesktop s peer (some id) r v = record {
    session_target =
        λ x e. ap (λ y. y.peer_id) (sym (some-injective (record { peer_id = id }) x e));
    session_runs = λ x e. r;
  }

  on_session-IsDesktop :
      (s : Desktop) (id : Option Bytes) (o : Option Session) (c : Session → Call)
      → IsDesktop s
      → IsDesktop (on_session decode_peer answers s id o c).0
  unfolding on_session attempt
  on_session-IsDesktop s none o c v = v
  on_session-IsDesktop s (some id) none c v = v
  on_session-IsDesktop s (some id) (some x) c v = elim (Bool-cases (bytes_beq id s.target)) [
    | inl same ↦ rw same v
    | inr differs ↦ rw differs v
  ]

  -- What a command may ask of the SDK: before it runs only to start it, and then of a session only if
  -- the session is with the peer that the command names.
  abbrev pub Asked : Bool → Option Bytes → Call → Type 0
  Asked true id c = ForPeer id c
  Asked false id (call_init config) = Unit {0}
  Asked false id call_info = Unit {0}
  Asked false id c = ⊥

  abbrev pub decoded_peer : Option Bytes → Option Bytes
  decoded_peer none = none
  decoded_peer (some peer) = decode_peer peer

  abbrev Good : Bool → Option Bytes → Step → Type 0
  Good running id r = IsDesktop r.0 × All (Asked running id) r.1

  init-Good :
      (s : Desktop) (running : Bool) (id : Option Bytes) (config : Bytes)
      → IsDesktop s
      → Good running id (run_init decode_peer answers s config)
  unfolding run_init
  init-Good s true id config v = (init-IsDesktop s config v, ground arith)
  init-Good s false id config v = (init-IsDesktop s config v, ground arith)

  fits :
      (s : Desktop) (id : Option Bytes) (x : Session) (peer : Bytes)
      → IsDesktop s
      → s.session ≡ some x
      → id ≡ some peer
      → bytes_beq peer s.target ≡ true
      → id ≡ some x.peer_id
  fits s id x peer v e f same =
      f ∙ ap some ((bytes_beq_iff peer s.target).0 same ∙ sym (v.session_target x e))

  on_session-Good :
      (s : Desktop) (id : Option Bytes) (o : Option Session) (c : Session → Call)
      → s.session ≡ o
      → IsDesktop s
      → ((x : Session) → id ≡ some x.peer_id → ForPeer id (c x))
      → Good true id (on_session decode_peer answers s id o c)
  unfolding on_session attempt
  on_session-Good s none o c e v f = (v, tt)
  on_session-Good s (some id) none c e v f = (v, tt)
  on_session-Good s (some id) (some x) c e v f = elim (Bool-cases (bytes_beq id s.target)) [
    | inl same ↦ rw same (v, (f x (fits s (some id) x id v e refl same), tt))
    | inr differs ↦ rw differs (v, tt)
  ]

  open-Good :
      (s : Desktop) (peer : Bytes) (id o : Option Bytes)
      → s.running ≡ true
      → IsDesktop s
      → Good true id (run_open decode_peer answers s peer o)
  unfolding run_open
  open-Good s peer id none r v = (open-IsDesktop s peer none r v, (tt, tt))
  open-Good s peer id (some x) r v = (open-IsDesktop s peer (some x) r v, (tt, tt))

  running-Good :
      (s : Desktop) (c : Command)
      → s.running ≡ true
      → IsDesktop s
      → Good true (decoded_peer (named c)) (run_command decode_peer answers s c)
  unfolding run_command attempt
  running-Good s (init config) r v = init-Good s true none config v
  running-Good s peers r v = (v, (tt, tt))
  running-Good s close r v =
      (record { session_target = λ x e. cc; session_runs = λ x e. cc }, (tt, tt))
  running-Good s other r v = (v, tt)
  running-Good s (pin peer on) r v = (v, (tt, tt))
  running-Good s (remark peer text) r v = (v, (tt, tt))
  running-Good s (flush peer) r v = (v, (tt, tt))
  running-Good s (open_peer peer) r v = open-Good s peer (decode_peer peer) (decode_peer peer) r v
  running-Good s (fetch peer offset limit) r v =
      on_session-Good s (decode_peer peer) s.session (λ x. session_fetch x offset limit) refl v
        (λ x e. e)
  running-Good s (delete peer ids) r v =
      on_session-Good s (decode_peer peer) s.session (λ x. session_delete x ids) refl v (λ x e. e)
  running-Good s (send peer mtype payload ttl) r v =
      on_session-Good s (decode_peer peer) s.session (λ x. session_send x mtype payload ttl) refl v
        (λ x e. e)

  abbrev input_peer : Input → Option Bytes
  input_peer illegal = none
  input_peer (command c) = decoded_peer (named c)

  allowed :
      (s : Desktop) (c : Command)
      → not (is_init c) && not s.running ≡ false
      → run_input decode_peer answers s (command c) ≡ run_command decode_peer answers s c
  unfolding run_input
  allowed s c e = rw e

  refused :
      (s : Desktop) (c : Command)
      → not (is_init c) && not s.running ≡ true
      → run_input decode_peer answers s (command c) ≡ (s, [], illegal_request)
  unfolding run_input
  refused s c e = rw e

  stopped-Good :
      (s : Desktop) (c : Command)
      → s.running ≡ false
      → is_init c ≡ true
      → IsDesktop s
      → Good false (decoded_peer (named c)) (run_command decode_peer answers s c)
  unfolding run_command
  stopped-Good s (init config) r i v = init-Good s false none config v
  stopped-Good s _ r i v = absurd (cc i)

  command-Good :
      (s : Desktop) (c : Command) (b i : Bool)
      → s.running ≡ b
      → is_init c ≡ i
      → IsDesktop s
      → Good b (decoded_peer (named c)) (run_input decode_peer answers s (command c))
  command-Good s c true i r e v =
      subst (Good true (decoded_peer (named c))) (sym (allowed s c (ground arith)))
        (running-Good s c r v)
  command-Good s c false true r e v =
      subst (Good false (decoded_peer (named c))) (sym (allowed s c (ground arith)))
        (stopped-Good s c r e v)
  command-Good s c false false r e v =
      subst (Good false (decoded_peer (named c))) (sym (refused s c (ground arith))) (v, tt)

  input-Good :
      (s : Desktop) (x : Input)
      → IsDesktop s
      → Good s.running (input_peer x) (run_input decode_peer answers s x)
  unfolding run_input
  input-Good s illegal v = (v, tt)
  input-Good s (command c) v = command-Good s c s.running (is_init c) refl refl v

  -- What is asked of the SDK at each of the inputs.
  abbrev pub IsOrderly : Desktop → List Input → Type 0
  IsOrderly s [] = Unit {0}
  IsOrderly s (x ∷ xs) =
      let (t, calls, code) = run_input decode_peer answers s x in
      All (Asked s.running (input_peer x)) calls × IsOrderly t xs

  orderly : (s : Desktop) (xs : List Input) → IsDesktop s → IsOrderly s xs
  orderly s [] v = tt
  orderly s (x ∷ xs) v =
      let (keeps, asked) = input-Good s x v in
      (asked, orderly (run_input decode_peer answers s x).0 xs keeps)

  -- Whatever lines arrive and whatever the SDK answers, no line asks anything of the SDK before it runs
  -- but to start it, and a line that fetches, deletes or sends reaches only a session with the very peer
  -- that the line names.
  pub run_input-IsOrderly : (xs : List Input) → IsOrderly new_desktop xs
  run_input-IsOrderly xs =
      orderly new_desktop xs (record { session_target = λ x e. cc; session_runs = λ x e. cc })
