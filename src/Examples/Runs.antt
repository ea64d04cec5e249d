-- ===== src/Examples/Runs.antt =====
-- The SDK's objects, the client's run and AsyncSend's goroutines: cmd/client/mobile/main.go and
-- internal/client.
use chat_libp2p.Common.{
  ◌≡◌, refl, arith, Bool, true, false, Option, some, List, [], ◌∷◌, ◌++◌, Bytes,
}
use chat_libp2p.Deferred.{Call, save_self, new_node, attempt, acquire, note}
use chat_libp2p.Deferred.Balance.{IsClosed}
use chat_libp2p.Deferred.Unowned.{unowned}
use chat_libp2p.Deferred.Announced.{announcements, notes_of}
use chat_libp2p.Client.Runs.{tick, halt, watch, serve, join_network, open_store, client_run}
use chat_libp2p.Client.Runs.Closings.{client_run-IsClosed}
use chat_libp2p.Client.Runs.Ready.{client_run-ready}
use chat_libp2p.Messages.Claims.{no_claims, starts, ends, turns}
use chat_libp2p.Messages.Claims.Distinct.{IsClaimed, turns-IsClaimed}
use chat_libp2p.Mobile.Starting.{Round, init_result}
use chat_libp2p.Mobile.Starting.Answer.{init_result-ready}
use chat_libp2p.Mobile.Sdk.{
  arrived, Act, ask_notifier, ask_session, ask_close, init_turn, offered, get, new_sdk, renew,
  get_notifier, open_decoded, place_stop, init_round, close_sdk, act, acts,
}
use chat_libp2p.Mobile.Sdk.Sound.{all_closed}
use chat_libp2p.Mobile.Sdk.Feed.{deliveries, events_in_order}

abbrev named : Bytes → Option Bytes
named bs = some bs

-- Two calls of Init, the second one after the first, and two sessions.
abbrev two_of_each : List Act
two_of_each =
    init_turn 1
    ∷ ask_notifier
    ∷ ask_session (5 ∷ [])
    ∷ init_turn 2
    ∷ init_turn 2
    ∷ ask_session (6 ∷ [])
    ∷ ask_notifier
    ∷ []

second_placed : (acts named two_of_each new_sdk).placed 2 ≡ true
unfolding acts act init_round place_stop get_notifier open_decoded renew
second_placed = refl

notifiers_made : (acts named two_of_each new_sdk).notifiers.made ≡ 2
unfolding acts act init_round place_stop get_notifier open_decoded renew
notifiers_made = refl

sessions_made : (acts named two_of_each new_sdk).sessions.made ≡ 2
unfolding acts act init_round place_stop get_notifier open_decoded renew
sessions_made = refl

all_closed_example :
    ((close_sdk (acts named two_of_each new_sdk)).notifiers.halted 1 ≡ true)
    × ((close_sdk (acts named two_of_each new_sdk)).sessions.halted 1 ≡ true)
    × ((close_sdk (acts named two_of_each new_sdk)).cancelled 2 ≡ true)
all_closed_example =
    all_closed named two_of_each 1 1 2 (omega (arith, notifiers_made))
      (omega (arith, sessions_made)) second_placed

abbrev two_events : List Act
two_events =
    ask_notifier
    ∷ offered (arrived [] (1 ∷ []))
    ∷ offered (arrived [] (2 ∷ []))
    ∷ get 0 false
    ∷ ask_close
    ∷ []

events_in_order_example :
    deliveries named two_events new_sdk ++ (acts named two_events new_sdk).events
    ≡ arrived [] (1 ∷ []) ∷ arrived [] (2 ∷ []) ∷ []
events_in_order_example = events_in_order named two_events (omega arith)

-- Everything but the last call before OK goes well.
abbrev but_save : Call → Bool
but_save save_self = false
but_save _ = true

-- libp2p.New fails.
abbrev but_node : Call → Bool
but_node new_node = false
but_node _ = true

client_run-IsClosed_example :
    IsClosed (client_run but_node (tick 3 ∷ halt ∷ []))
    × (unowned (notes_of (client_run but_node (tick 3 ∷ halt ∷ []))) false ≡ true)
client_run-IsClosed_example = client_run-IsClosed but_node (tick 3 ∷ halt ∷ [])

client_run-ready_example : announcements (notes_of (client_run but_save (tick 3 ∷ []))) ≡ 0
client_run-ready_example = client_run-ready but_save (tick 3 ∷ [])

turns-IsClaimed_example :
    IsClaimed (turns (starts 1 ∷ starts 2 ∷ starts 1 ∷ ends 1 ∷ starts 1 ∷ []) no_claims)
turns-IsClaimed_example = turns-IsClaimed (starts 1 ∷ starts 2 ∷ starts 1 ∷ ends 1 ∷ starts 1 ∷ [])

-- A client that connects and stays so, and one whose configuration does not load.
abbrev good_round : Round
good_round = record { loads = true; calls = λ c. true; turns = tick 3 ∷ []; nil_first = false }

init_result-ready_example :
    init_result (good_round ∷ record good_round { loads = false } ∷ []) ≡ some true
unfolding client_run open_store join_network serve watch attempt acquire note
init_result-ready_example = init_result-ready good_round (record good_round { loads = false } ∷ [])
