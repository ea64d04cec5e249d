-- ===== src/Examples/Apps.antt =====
-- The probe and the front ends: internal/client/service/probe.go, cmd/client/pc and cmd/client/mobile.
use chat_libp2p.Common.{
  ◌≡◌, refl, true, Option, some, none, List, [], ◌∷◌, Bytes, All, IsByte, length, put_be,
  length-put_be, put_be-IsByte,
}
use chat_libp2p.Config.{Config, Curve, decode_hex, from_hex, public_hash, get_ethereum_address}
use chat_libp2p.Config.Address.{get_ethereum_address-decode_hex}
use chat_libp2p.Probe.{
  alive, dead, Status, off, direct, Probing, start, beats, takes, Turn, turn, turns, probe_round,
  update_status, status_of, take_status, same_status,
}
use chat_libp2p.Probe.Latest.{known, last_status, turns_latest}
use chat_libp2p.Desktop.{init, open_peer, fetch, delete, Input, illegal, command, new_desktop}
use chat_libp2p.Desktop.Sessions.{IsOrderly, run_input-IsOrderly}

abbrev some_turns : List Turn
some_turns = takes ∷ beats (alive true) ∷ beats dead ∷ takes ∷ beats (alive true) ∷ []

abbrev after_turns : Probing × Option Status
after_turns = (record { status = direct; place = some direct }, some off)

ran : turns some_turns (start, none) ≡ some after_turns
unfolding turns turn probe_round update_status status_of take_status same_status
ran = refl

turns_latest_example : known after_turns ≡ some (last_status off some_turns)
turns_latest_example = turns_latest some_turns after_turns ran

abbrev some_inputs : List Input
some_inputs =
    command (fetch (1 ∷ []) 0 10)
    ∷ command (init [])
    ∷ illegal
    ∷ command (open_peer (1 ∷ []))
    ∷ command (fetch (1 ∷ []) 0 10)
    ∷ command (delete (2 ∷ []) [])
    ∷ []

run_input-IsOrderly_example : IsOrderly (λ bs. some bs) (λ c. true) new_desktop some_inputs
run_input-IsOrderly_example = run_input-IsOrderly (λ bs. some bs) (λ c. true) some_inputs

-- A curve of which only the point of a scalar matters, and a hash of zeros.
abbrev flat_curve : Curve
flat_curve = record {
  Key = Bytes;
  from_bytes = λ bs. bs;
  generate = λ bs. some bs;
  raw = λ k. k;
  base_mult = λ bs. (1, 2);
}

abbrev no_hash : Bytes → Bytes
no_hash bs = put_be 32 0

no_hash_laws : (bs : Bytes) → (length (no_hash bs) ≡ 32) × All IsByte (no_hash bs)
no_hash_laws bs = (length-put_be 32 0, put_be-IsByte 32 0)

abbrev small_config : Config
small_config = record { private_key = b'0' ∷ b'F' ∷ []; data_dir = [] }

small_key : decode_hex small_config.private_key ≡ some (15 ∷ [])
unfolding decode_hex from_hex
small_key = refl

get_ethereum_address-decode_hex_example :
    (text : Bytes) × (get_ethereum_address flat_curve no_hash small_config
      ≡ some (b'0' ∷ b'x' ∷ text))
    × (length text ≡ 40)
    × (decode_hex text ≡ some (public_hash flat_curve no_hash (15 ∷ [])))
get_ethereum_address-decode_hex_example =
    get_ethereum_address-decode_hex flat_curve no_hash small_config (15 ∷ []) no_hash_laws small_key
